-- ===== src/Memory/Repository/Calls.antt =====
-- What a successful call of the repository's methods has found and written.
use stockflow_erp_mock.Common.{
  ◌≡◌, false, none, some, is_empty, ok, arith, inl, inr, Option-cases, Result-cases,
}
use stockflow_erp_mock.Common.Int.{ℤ, neg_part}
use stockflow_erp_mock.Common.Text.{Text, trim_space, trim_space_idem}
use stockflow_erp_mock.Common.Dict.{lookup, insert}
use stockflow_erp_mock.Inventory.Model.{Time, StockItem, Reservation, new_stock_item}
use stockflow_erp_mock.Inventory.Service
use stockflow_erp_mock.Inventory.Service.{is_active}
use stockflow_erp_mock.Inventory.Laws.{reserve-eq_ok, new_stock_item-eq_ok}
use stockflow_erp_mock.Memory.Repository.{
  Repository, CtxErr, reserved_of, normalized_identifier, set_stock, reserve, release,
}

-- The parts of a successful call of `reserve`.
pub reserve-eq_ok_parts :
    (ctx_err : CtxErr) (now : Time) (reservation_id sku : Text) (q : ℤ) (r : Repository)
    {r' : Repository} {x : Reservation}
    → reserve ctx_err now reservation_id sku q r ≡ ok (r', x)
    → (is_empty (trim_space reservation_id) ≡ false)
      × (is_empty (trim_space sku) ≡ false)
      × (lookup (trim_space reservation_id) r.reservations ≡ none)
      × (i : StockItem) × (j : StockItem) × (lookup (trim_space sku) r.stock ≡ some i)
      × (Service.reserve now (some i) (trim_space reservation_id) q ≡ ok (j, x))
      × (r' ≡ record {
        stock = insert (trim_space sku) j r.stock;
        reservations = insert (trim_space reservation_id) x r.reservations;
      })
unfolding reserve normalized_identifier
reserve-eq_ok_parts ctx_err now reservation_id sku q r h =
    elim (Option-cases (lookup (trim_space sku) r.stock)) [
      | inl e ↦ absurd (ground arith)
      | inr (i, e) ↦
          elim (Result-cases (Service.reserve now (some i) (trim_space reservation_id) q)) [
            | inl ((j, y), f) ↦ (
              ground arith,
              ground arith,
              ground arith,
              i,
              j,
              e,
              ground arith,
              ground (
                arith,
                reserve-eq_ok now i (trim_space reservation_id) q f,
                trim_space_idem reservation_id,
              ),
            )
            | inr (x, f) ↦ absurd (ground arith)
          ]
    ]

-- The parts of a successful call of `release`.
pub release-eq_ok_parts :
    (ctx_err : CtxErr) (now : Time) (reservation_id : Text) (r : Repository) {r' : Repository}
    {x : Reservation}
    → release ctx_err now reservation_id r ≡ ok (r', x)
    → (old : Reservation) × (i : StockItem) × (j : StockItem) × (lookup
          (trim_space reservation_id)
          r.reservations
        ≡ some old)
      × (lookup old.sku r.stock ≡ some i)
      × (Service.release now (some i) (some old) ≡ ok (j, x))
      × (r' ≡ record {
        stock = insert old.sku j r.stock;
        reservations = insert (trim_space reservation_id) x r.reservations;
      })
unfolding release normalized_identifier
release-eq_ok_parts ctx_err now reservation_id r h =
    elim (Option-cases (lookup (trim_space reservation_id) r.reservations)) [
      | inl e ↦ absurd (ground arith)
      | inr (old, e) ↦ elim (Option-cases (lookup old.sku r.stock)) [
        | inl f ↦ absurd (ground arith)
        | inr (i, f) ↦ elim (Result-cases (Service.release now (some i) (some old))) [
          | inl ((j, y), g) ↦ (old, i, j, e, f, ground arith, ground arith)
          | inr (x, g) ↦ absurd (ground arith)
        ]
      ]
    ]

-- The item that a successful call of `set_stock` writes.
pub set_stock-eq_ok_parts :
    (ctx_err : CtxErr) (sku : Text) (q : ℤ) (r : Repository) {r' : Repository} {i : StockItem}
    → set_stock ctx_err sku q r ≡ ok (r', i)
    → (i.sku ≡ trim_space sku)
      × (i.available_quantity ≡ q)
      × (i.reserved_quantity ≡ reserved_of (lookup (trim_space sku) r.stock))
      × (is_empty (trim_space sku) ≡ false)
      × (neg_part q ≡ 0)
      × (r' ≡ record r { stock = insert (trim_space sku) i r.stock })
unfolding set_stock
set_stock-eq_ok_parts ctx_err sku q r h = elim (Result-cases (new_stock_item sku q)) [
  | inl (item, e) ↦ ground (arith, new_stock_item-eq_ok sku q e)
  | inr (x, e) ↦ absurd (ground arith)
]
