-- ===== src/Tests/Repository.antt =====
-- The repository and the idempotency store on a small stock.
use stockflow_erp_mock.Common.{◌≡◌, ◌≢◌, ◌↔◌, refl, some, none, List, [], ◌∷◌, ok, err, arith}
use stockflow_erp_mock.Common.Int.{ℤ, max_int, pos, add_int, sub_int, wrap_int}
use stockflow_erp_mock.Common.Text.{
  Text, text, text_eq, trim_space, trim_left, trim_right, is_space,
}
use stockflow_erp_mock.Common.Dict.{lookup, insert}
use stockflow_erp_mock.Inventory.Errors.{wraps, reservation_not_active}
use stockflow_erp_mock.Inventory.Model.{
  Time, StockItem, Reservation, active, new_stock_item, validate_stock_item, validate_reservation,
}
use stockflow_erp_mock.Inventory.Service
use stockflow_erp_mock.Inventory.Laws.{closed}
use stockflow_erp_mock.Memory.Repository.{
  Repository, StockSeed, set_stock, seed_stock, new_inventory_repository, normalized_identifier,
  reserve, release,
}
use stockflow_erp_mock.Memory.Repository.Overflow.{set_stock_overflows}
use stockflow_erp_mock.Memory.Repository.Invariant.{IsValid}
use stockflow_erp_mock.Memory.Repository.History.{Reach, Reach-IsValid, seeded, reserves}
use stockflow_erp_mock.Memory.Repository.Contract.{
  Accepts, reserve_iff, units, units-reserve, release_succeeds, release-release, release-reserve,
}

abbrev pub seed : List StockSeed
seed = record { sku = text " mug "; available_quantity = pos 5 } ∷ []

abbrev pub mug : StockItem
mug = record { sku = text "mug"; available_quantity = pos 5; reserved_quantity = pos 0 }

abbrev pub mug_less_two : StockItem
mug_less_two = record { sku = text "mug"; available_quantity = pos 3; reserved_quantity = pos 2 }

abbrev pub two_mugs : Reservation
two_mugs = record {
  id = text "r1";
  sku = text "mug";
  quantity = pos 2;
  status = active;
  created_at = 10;
  released_at = none;
}

abbrev pub initial : Repository
initial = record { stock = (text "mug", mug) ∷ []; reservations = [] }

abbrev pub holding : Repository
holding = record {
  stock = (text "mug", mug_less_two) ∷ [];
  reservations = (text "r1", two_mugs) ∷ [];
}

abbrev pub returned : Repository
returned = record {
  stock = (text "mug", mug) ∷ [];
  reservations = (text "r1", closed 20 two_mugs) ∷ [];
}

pub initial-new : new_inventory_repository (some tt) seed ≡ ok initial
unfolding new_inventory_repository seed_stock new_stock_item lookup insert trim_space trim_left
    trim_right is_space text_eq
initial-new = refl

pub holding-reserve :
    reserve none 10 (text "r1 ") (text "mug") (pos 2) initial ≡ ok (holding, two_mugs)
unfolding reserve normalized_identifier Service.reserve validate_stock_item add_int sub_int wrap_int
    lookup insert trim_space trim_left trim_right is_space text_eq
holding-reserve = refl

pub returned-release : release none 20 (text "r1") holding ≡ ok (returned, closed 20 two_mugs)
unfolding release normalized_identifier Service.release validate_stock_item validate_reservation
    add_int sub_int wrap_int lookup insert trim_space trim_left trim_right is_space text_eq
returned-release = refl

history : Reach holding
history =
    reserves none 10 (text "r1 ") (text "mug") (pos 2) (seeded seed (omega arith) initial-new)
      holding-reserve

Reach-IsValid_example : IsValid holding
Reach-IsValid_example = Reach-IsValid history

pub initial-IsValid : IsValid initial
initial-IsValid = Reach-IsValid (seeded seed (omega arith) initial-new)

pub holding-IsValid : IsValid holding
holding-IsValid = Reach-IsValid history

release_succeeds_example :
    (r' : Repository) × (release none 20 (text " r1") holding ≡ ok (r', closed 20 two_mugs))
unfolding lookup trim_space trim_left trim_right is_space text_eq
release_succeeds_example =
    release_succeeds 20 (text " r1") holding two_mugs holding-IsValid refl refl

release-release_example : release none 30 (text "r1") returned ≡ err (wraps reservation_not_active)
release-release_example =
    release-release none 20 30 (text "r1") holding holding-IsValid returned-release

reserve_iff_example :
    ((r' : Repository) × (x : Reservation) × (reserve none 10
          (text "r2")
          (text "mug")
          (pos 9)
          holding
        ≡ ok (r', x)))
    ↔ Accepts (text "r2") (text "mug") (pos 9) holding
reserve_iff_example = reserve_iff 10 (text "r2") (text "mug") (pos 9) holding holding-IsValid

units-reserve_example :
    units (lookup (text "mug") holding.stock) ≡ units (lookup (text "mug") initial.stock)
units-reserve_example =
    units-reserve none 10 (text "r1 ") (text "mug") (pos 2) initial initial-IsValid holding-reserve
      (text "mug")

release-reserve_example :
    (r'' : Repository) × (release none 20 (text "r1 ") holding ≡ ok (r'', closed 20 two_mugs))
    × ((k : Text) → lookup k r''.stock ≡ lookup k initial.stock)
release-reserve_example =
    release-reserve none 10 20 (text "r1 ") (text "mug") (pos 2) initial initial-IsValid
      holding-reserve

abbrev full_mug : StockItem
full_mug = record mug_less_two { available_quantity = pos max_int }

abbrev full : Repository
full = record holding { stock = (text "mug", full_mug) ∷ [] }

set_stock_overflows_example :
    (r'' : Repository) × (release none 20 (text "r1") full ≡ ok (r'', closed 20 two_mugs))
    × ((later : Time) (other : Text) (n : ℤ) (p : Repository × Reservation)
        → reserve none later other (text "mug") n r'' ≢ ok p)
unfolding set_stock new_stock_item validate_stock_item lookup insert text_eq trim_space trim_left
    trim_right is_space
set_stock_overflows_example =
    set_stock_overflows 20 (text "mug") (text "r1") (pos max_int) holding two_mugs holding-IsValid
      refl refl refl refl refl (omega arith) (omega arith)
