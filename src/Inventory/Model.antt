-- ===== src/Inventory/Model.antt =====
-- internal/domain/inventory/model.go. A pointer that may be nil is an `Option`; the `validate`
-- methods return what the pointer stands for.
use stockflow_erp_mock.Common.{
  ℕ, Option, none, some, [], is_empty, String, Result, ok, err, fail_if, ◌>>◌,
}
use stockflow_erp_mock.Common.Int.{ℤ, pos, ltb_ℤ, leb_ℤ}
use stockflow_erp_mock.Common.Text.{Text, trim_space}
use stockflow_erp_mock.Inventory.Errors.{Error, wraps, invalid_argument, stock_invariant_violation}

-- `time.Time`, as a number of nanoseconds.
abbrev pub Time : Type 0
Time = ℕ

-- A Go string type: the constants, and every other value.
pub data ReservationStatus : Type 0 where
  active released : ReservationStatus
  unsupported : String → ReservationStatus

pub record StockItem : Type 0 where
  pub sku : Text
  pub available_quantity : ℤ
  pub reserved_quantity : ℤ

pub record Reservation : Type 0 where
  pub id : Text
  pub sku : Text
  pub quantity : ℤ
  pub status : ReservationStatus
  pub created_at : Time
  pub released_at : Option Time

-- `inventory.Reservation{}`
abbrev pub zero_reservation : Reservation
zero_reservation = record {
  id = [];
  sku = [];
  quantity = pos 0;
  status = unsupported "";
  created_at = 0;
  released_at = none;
}

unfoldable pub validate_stock_item : Option StockItem → Result Error StockItem
validate_stock_item none = err (wraps invalid_argument)
validate_stock_item (some i) = do
  fail_if (is_empty (trim_space i.sku)) (wraps invalid_argument)
  fail_if (ltb_ℤ i.available_quantity (pos 0)) (wraps stock_invariant_violation)
  fail_if (ltb_ℤ i.reserved_quantity (pos 0)) (wraps stock_invariant_violation)
  ok i

unfoldable pub new_stock_item : Text → ℤ → Result Error StockItem
unfolding validate_stock_item
new_stock_item sku available_quantity = validate_stock_item (
    some (record {
      sku = trim_space sku;
      available_quantity = available_quantity;
      reserved_quantity = pos 0;
    }))

check_status : ReservationStatus → Result Error (Unit {0})
check_status active = ok tt
check_status released = ok tt
check_status (unsupported _) = err (wraps invalid_argument)

unfoldable pub validate_reservation : Option Reservation → Result Error Reservation
unfolding check_status
validate_reservation none = err (wraps invalid_argument)
validate_reservation (some r) = do
  fail_if (is_empty (trim_space r.id)) (wraps invalid_argument)
  fail_if (is_empty (trim_space r.sku)) (wraps invalid_argument)
  fail_if (leb_ℤ r.quantity (pos 0)) (wraps invalid_argument)
  check_status r.status
  ok r
