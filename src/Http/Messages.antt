-- ===== src/Http/Messages.antt =====
-- The bodies of requests and responses of internal/http/server.go. The text of an error's message
-- is left out, and the codec of encoding/json is an argument.
use stockflow_erp_mock.Common.{
  ℕ, Bool, not, Option, none, some, String, List, Result, ok, err, fail_if, ◌>>◌,
}
use stockflow_erp_mock.Common.Int.{ℤ}
use stockflow_erp_mock.Common.Text.{Text}
use stockflow_erp_mock.Inventory.Errors.{Error, wraps, invalid_argument}
use stockflow_erp_mock.Inventory.Model.{Time, ReservationStatus}
use stockflow_erp_mock.App.FailureMode.{Float64, FailureMode}
use stockflow_erp_mock.Messaging.Amqp.{Bytes}
use stockflow_erp_mock.Messaging.Admin.{DeadLetterQueue}

pub record StockItemResponse : Type 0 where
  pub sku : Text
  pub available_quantity : ℤ
  pub reserved_quantity : ℤ

pub record SetStockRequest : Type 0 where
  pub sku : Text
  pub available_quantity : ℤ

pub record ReservationResponse : Type 0 where
  pub id : Text
  pub sku : Text
  pub quantity : ℤ
  pub status : ReservationStatus
  pub created_at : Time
  pub released_at : Option Time

-- `failureModeRequest` and `failureModeResponse`, which have the same fields.
pub record FailureModeMessage : Type 0 where
  pub mode : FailureMode
  pub random_reject_probability : Float64
  pub processing_delay_ms : ℤ

pub record RequeueDeadLettersRequest : Type 0 where
  pub queue : DeadLetterQueue
  pub limit : ℤ

-- What a response holds.
pub data Body : Type 0 where
  status_response : String → Body
  stock_item_response : StockItemResponse → Body
  stock_list_response : List StockItemResponse → Body
  reservation_response : ReservationResponse → Body
  reservation_list_response : List ReservationResponse → Body
  failure_mode_response : FailureModeMessage → Body
  requeue_dead_letters_response : (requeued_messages : ℕ) → Body
  error_response : (code : String) → Body

pub record Response : Type 0 where
  pub status : ℕ
  pub body : Body

-- What a decoder that disallows unknown fields finds in a body of at most 2^20 bytes: the first JSON
-- value, if it is one of the type, and whether the body ends after it.
pub record RequestCodec : Type 0 where
  pub set_stock_request : Bytes → Option (SetStockRequest × Bool)
  pub failure_mode_request : Bytes → Option (FailureModeMessage × Bool)
  pub requeue_dead_letters_request : Bytes → Option (RequeueDeadLettersRequest × Bool)

-- `decodeJSON`
unfoldable pub decode_json {ℓ} : {A : Type ℓ} → Option (A × Bool) → Result Error A
decode_json none = err (wraps invalid_argument)
decode_json (some (a, ends)) = do fail_if (not ends) (wraps invalid_argument); ok a
