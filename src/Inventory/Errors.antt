-- ===== src/Inventory/Errors.antt =====
-- The errors of the program (internal/domain/inventory/errors.go, and the `Err…` variables of the
-- packages app, memory and rabbitmq), and `errors.Is`. The texts of the messages are left out.
use mathlib.Core.Bool.{decide}
use stockflow_erp_mock.Common.{Bool, false, String}
use stockflow_erp_mock.Common.Int.{ℤ}
use stockflow_erp_mock.Common.Text.{Text}

-- The values that `errors.Is` is asked about.
pub data Sentinel : Type 0 where
  invalid_argument insufficient_stock reservation_already_exists : Sentinel
  reservation_not_found reservation_not_active stock_item_not_found : Sentinel
  stock_invariant_violation invalid_idempotency_key idempotency_conflict : Sentinel
  invalid_message simulated_publish_failure : Sentinel
  invalid_dead_letter_queue invalid_requeue_limit : Sentinel
  canceled deadline_exceeded : Sentinel

abbrev pub Sentinel-discrete : Discrete Sentinel
Sentinel-discrete = hlevel

pub record InsufficientStockError : Type 0 where
  pub sku : Text
  pub requested : ℤ
  pub available : ℤ

-- `wraps s` is `s` itself or `fmt.Errorf("%w: …", s)`; `other` has no sentinel in its chain.
pub data Error : Type 0 where
  wraps : Sentinel → Error
  insufficient : InsufficientStockError → Error
  other : String → Error

-- `InsufficientStockError.Unwrap`
abbrev pub unwrap : InsufficientStockError → Sentinel
unwrap e = insufficient_stock

-- `errors.Is`
abbrev pub is : Error → Sentinel → Bool
is (wraps s) t = decide (Sentinel-discrete s t)
is (insufficient e) t = decide (Sentinel-discrete (unwrap e) t)
is (other _) t = false
