-- ===== src/Inventory/Service.antt =====
-- internal/domain/inventory/service.go. `currentTime` is the argument `now`. A method changes what
-- its pointers stand for only after its last check, so it returns the new values or an error.
use stockflow_erp_mock.Common.{
  Bool, true, false, not, Option, none, some, is_empty, Result, ok, fail_if, ◌>>=◌, ◌>>◌,
}
use stockflow_erp_mock.Common.Int.{ℤ, pos, ltb_ℤ, leb_ℤ, add_int, sub_int}
use stockflow_erp_mock.Common.Text.{Text, trim_space, text_eq}
use stockflow_erp_mock.Inventory.Errors.{
  Error, wraps, insufficient, invalid_argument, reservation_not_active, stock_invariant_violation,
}
use stockflow_erp_mock.Inventory.Model.{
  Time, ReservationStatus, active, released, StockItem, Reservation, validate_stock_item,
  validate_reservation,
}

-- `status == ReservationStatusActive`
abbrev pub is_active : ReservationStatus → Bool
is_active active = true
is_active _ = false

-- `Service.Reserve`: the changed item, and the new reservation.
unfoldable pub reserve : Time → Option StockItem → Text → ℤ → Result Error (StockItem × Reservation)
reserve now pointer reservation_id quantity = do
  item ← validate_stock_item pointer
  let id = trim_space reservation_id
  fail_if (is_empty id) (wraps invalid_argument)
  fail_if (leb_ℤ quantity (pos 0)) (wraps invalid_argument)
  fail_if (ltb_ℤ item.available_quantity quantity) (
      insufficient
        (record { sku = item.sku; requested = quantity; available = item.available_quantity }))
  ok (
    record item {
      available_quantity = sub_int item.available_quantity quantity;
      reserved_quantity = add_int item.reserved_quantity quantity;
    },
    record {
      id = id;
      sku = item.sku;
      quantity = quantity;
      status = active;
      created_at = now;
      released_at = none;
    },
  )

-- `Service.Release`: the changed item, and the changed reservation.
unfoldable pub release :
    Time → Option StockItem → Option Reservation → Result Error (StockItem × Reservation)
release now item_pointer reservation_pointer = do
  item ← validate_stock_item item_pointer
  reservation ← validate_reservation reservation_pointer
  fail_if (not (is_active reservation.status)) (wraps reservation_not_active)
  fail_if (not (text_eq item.sku reservation.sku)) (wraps invalid_argument)
  fail_if (ltb_ℤ item.reserved_quantity reservation.quantity) (wraps stock_invariant_violation)
  ok (
    record item {
      available_quantity = add_int item.available_quantity reservation.quantity;
      reserved_quantity = sub_int item.reserved_quantity reservation.quantity;
    },
    record reservation { status = released; released_at = some now },
  )
