-- ===== src/Memory/Repository/Retention.antt =====
-- What the methods of the repository do with the reservations that are there.
use stockflow_erp_mock.Common.{◌≡◌, refl, sym, ◌∙◌, false, some, ok, arith, Bool-cases, inl, inr}
use mathlib.Core.Option.{some-injective}
use stockflow_erp_mock.Inventory.Service
use stockflow_erp_mock.Common.Int.{ℤ}
use stockflow_erp_mock.Common.Text.{Text, trim_space, text_eq, text_eq_iff}
use stockflow_erp_mock.Common.Dict.{Dict, lookup, insert, lookup-insert}
use stockflow_erp_mock.Inventory.Model.{Time, Reservation, StockItem}
use stockflow_erp_mock.Inventory.Service.{is_active}
use stockflow_erp_mock.Inventory.Laws.{release-eq_ok}
use stockflow_erp_mock.Memory.Repository.{Repository, CtxErr, reserve, release, set_stock}
use stockflow_erp_mock.Memory.Repository.Calls.{
  reserve-eq_ok_parts, release-eq_ok_parts, set_stock-eq_ok_parts,
}

-- A later state of a reservation: only its status and its time of release may differ, and what is
-- released stays so.
pub record Later (x y : Reservation) : Type 0 where
  pub same_id : y.id ≡ x.id
  pub same_sku : y.sku ≡ x.sku
  pub same_quantity : y.quantity ≡ x.quantity
  pub same_created_at : y.created_at ≡ x.created_at
  pub stays_released : is_active x.status ≡ false → is_active y.status ≡ false

pub Later-refl : (x : Reservation) → Later x x
Later-refl x = record {
  same_id = refl;
  same_sku = refl;
  same_quantity = refl;
  same_created_at = refl;
  stays_released = λ h. h;
}

-- Each reservation of `r` is in `r'`, in a later state.
abbrev pub Grows : Repository → Repository → Type 0
Grows r r' =
    (id : Text) (x : Reservation)
    → lookup id r.reservations ≡ some x
    → (y : Reservation) × (lookup id r'.reservations ≡ some y) × Later x y

pub Grows-refl : (r : Repository) → Grows r r
Grows-refl r id x h = (x, h, Later-refl x)

Grows-insert :
    (m : Dict Reservation) (k id : Text) (x y : Reservation)
    → ((old : Reservation) → lookup k m ≡ some old → Later old y)
    → lookup id m ≡ some x
    → (z : Reservation) × (lookup id (insert k y m) ≡ some z) × Later x z
Grows-insert m k id x y later h = elim (Bool-cases (text_eq k id)) [
  | inl e ↦
      let same : k ≡ id = (text_eq_iff k id).0 e in (y, rw (lookup-insert, e), later x (rw same h))
  | inr e ↦ (x, rw (lookup-insert, e) h, Later-refl x)
]

-- A reservation makes no other one disappear or change.
pub reserve-Grows :
    (ctx_err : CtxErr) (now : Time) (reservation_id sku : Text) (q : ℤ) (r : Repository)
    {r' : Repository} {x : Reservation}
    → reserve ctx_err now reservation_id sku q r ≡ ok (r', x)
    → Grows r r'
reserve-Grows ctx_err now reservation_id sku q r {r'} {x} h id y at_id =
    let (_, _, fresh, i, j, at_k, call, e) =
      reserve-eq_ok_parts ctx_err now reservation_id sku q r h in
    rw e (
      Grows-insert r.reservations (trim_space reservation_id) id y x
        (λ old f. absurd (cc (fresh, f))) at_id)

-- A release changes the status and the time of release of one reservation, and nothing else.
pub release-Grows :
    (ctx_err : CtxErr) (now : Time) (reservation_id : Text) (r : Repository) {r' : Repository}
    {x : Reservation}
    → release ctx_err now reservation_id r ≡ ok (r', x)
    → Grows r r'
release-Grows ctx_err now reservation_id r {r'} {x} h id y at_id =
    let (old, i, j, at_old, at_sku, call, e) = release-eq_ok_parts ctx_err now reservation_id r h in
    rw e (
      Grows-insert r.reservations (trim_space reservation_id) id y x
        (λ z f. closes z old (some-injective z old (sym f ∙ at_old)) i j call) at_id)
  where
    closes :
        (z old : Reservation)
        → z ≡ old
        → (i j : StockItem) → Service.release now (some i) (some old) ≡ ok (j, x)
        → Later z x
    closes z old same i j call =
        let (_, _, _, e) = release-eq_ok now i old call in ground (arith, same, e)

pub set_stock-Grows :
    (ctx_err : CtxErr) (sku : Text) (q : ℤ) (r : Repository) {r' : Repository} {i : StockItem}
    → set_stock ctx_err sku q r ≡ ok (r', i)
    → Grows r r'
set_stock-Grows ctx_err sku q r h =
    let (_, _, _, _, _, e) = set_stock-eq_ok_parts ctx_err sku q r h in rw e (Grows-refl r)
