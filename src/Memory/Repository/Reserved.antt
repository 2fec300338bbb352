-- ===== src/Memory/Repository/Reserved.antt =====
-- The units of an item that the active reservations of a repository hold.
use stockflow_erp_mock.Common.{
  ℕ, ◌+◌, ◌≤◌, ◌≡◌, refl, none, some, [], ◌∷◌, ◌&&◌, arith, if◌then◌else◌,
}
use stockflow_erp_mock.Common.Int.{pos_part}
use stockflow_erp_mock.Common.Text.{Text, text_eq}
use stockflow_erp_mock.Common.Dict.{Dict, lookup, insert}
use stockflow_erp_mock.Inventory.Model.{Reservation}
use stockflow_erp_mock.Inventory.Service.{is_active}

-- The units of `sku` that one reservation holds.
abbrev pub held : Text → Reservation → ℕ
held sku r = if is_active r.status && text_eq r.sku sku then pos_part r.quantity else 0

unfoldable pub reserved_for : Text → Dict Reservation → ℕ
reserved_for sku [] = 0
reserved_for sku ((_, r) ∷ m) = held sku r + reserved_for sku m

pub reserved_for-insert_new :
    (sku k : Text) (r : Reservation) (m : Dict Reservation)
    → lookup k m ≡ none
    → reserved_for sku (insert k r m) ≡ held sku r + reserved_for sku m
unfolding reserved_for lookup insert
reserved_for-insert_new sku k r [] h = refl
reserved_for-insert_new sku k r ((j, s) ∷ m) h = ground (arith, reserved_for-insert_new sku k r m)

pub reserved_for-insert :
    (sku k : Text) (r old : Reservation) (m : Dict Reservation)
    → lookup k m ≡ some old
    → reserved_for sku (insert k r m) + held sku old ≡ held sku r + reserved_for sku m
unfolding reserved_for lookup insert
reserved_for-insert sku k r old [] h = cc
reserved_for-insert sku k r old ((j, s) ∷ m) h = ground (arith, reserved_for-insert sku k r old m)

pub held-le-reserved_for :
    (sku k : Text) (r : Reservation) (m : Dict Reservation)
    → lookup k m ≡ some r
    → held sku r ≤ reserved_for sku m
unfolding reserved_for lookup
held-le-reserved_for sku k r [] h = cc
held-le-reserved_for sku k r ((j, s) ∷ m) h = ground (arith, held-le-reserved_for sku k r m)
