-- ===== src/App/Reservation.antt =====
-- internal/app/inventory_reservation.go
pub mod Delivery
pub mod Backing
pub mod Confirmations
use stockflow_erp_mock.Common.{Bool, not, ◌&&◌, ◌||◌, String, Result, ok, err, if◌then◌else◌}
use stockflow_erp_mock.Common.Int.{ℤ, int_eq}
use stockflow_erp_mock.Common.Text.{Text, text, text_eq}
use stockflow_erp_mock.Common.Dict.{Dict}
use stockflow_erp_mock.Inventory.Errors.{
  Error, wraps, is, insufficient_stock, stock_item_not_found, idempotency_conflict,
}
use stockflow_erp_mock.Inventory.Model.{Reservation, zero_reservation}
use stockflow_erp_mock.Memory.Repository
use stockflow_erp_mock.Memory.Repository.{Repository}
use stockflow_erp_mock.Memory.Idempotency.{Action, execute}
use stockflow_erp_mock.App.Context.{MessageMetadata, Context}

pub record ReservationRequest : Type 0 where
  pub metadata : MessageMetadata
  pub reservation_id : Text
  pub order_id : Text
  pub sku : Text
  pub quantity : ℤ

pub data ReservationDecision : Type 0 where
  confirmed rejected : ReservationDecision
  unsupported : String → ReservationDecision

-- `string(decision)`
abbrev pub decision_text : ReservationDecision → String
decision_text confirmed = "confirmed"
decision_text rejected = "rejected"
decision_text (unsupported s) = s

abbrev pub reason_insufficient_stock : String
reason_insufficient_stock = "INSUFFICIENT_STOCK"

abbrev pub reason_failure_mode : String
reason_failure_mode = "FAILURE_MODE"

pub record ReservationResult : Type 0 where
  pub decision : ReservationDecision
  pub idempotency_hit : Bool
  pub request : ReservationRequest
  pub reservation : Reservation
  pub rejection_reason : String

abbrev pub confirmed_result : ReservationRequest → Reservation → ReservationResult
confirmed_result request reservation = record {
  decision = confirmed;
  idempotency_hit = Bool.false;
  request = request;
  reservation = reservation;
  rejection_reason = "";
}

abbrev pub rejected_result : ReservationRequest → String → ReservationResult
rejected_result request reason = record {
  decision = rejected;
  idempotency_hit = Bool.false;
  request = request;
  reservation = zero_reservation;
  rejection_reason = reason;
}

-- The result of `repository.Reserve`, and the repository that it leaves.
decide_reservation :
    ReservationRequest
    → Result Error (Repository × Reservation)
    → Action Repository ReservationResult
decide_reservation request (ok (r', reservation)) r =
    (ok (confirmed_result request reservation), r')
decide_reservation request (err e) r =
    if is e insufficient_stock || is e stock_item_not_found
    then (ok (rejected_result request reason_insufficient_stock), r)
    else (err e, r)

unfoldable pub reserve : Context → ReservationRequest → Action Repository ReservationResult
unfolding decide_reservation
reserve ctx request r =
    decide_reservation request
      (Repository.reserve ctx.repository ctx.now request.reservation_id request.sku request.quantity
        r)
      r

unfoldable pub same_reservation_request : ReservationRequest → ReservationRequest → Bool
same_reservation_request left right =
    text_eq left.reservation_id right.reservation_id
    && (text_eq left.order_id right.order_id
        && (text_eq left.sku right.sku && int_eq left.quantity right.quantity))

-- What the handler makes of the store's answer.
abbrev pub finish :
    ReservationRequest → Result Error (ReservationResult × Bool) → Result Error ReservationResult
finish request (err e) = err e
finish request (ok (result, hit)) =
    if hit && not (same_reservation_request result.request request)
    then err (wraps idempotency_conflict)
    else ok (record result {
      idempotency_hit = hit;
      request = record result.request { metadata = request.metadata };
    })

-- The handler's idempotency store and the repository.
abbrev pub HandlerState : Type 0
HandlerState = Dict ReservationResult × Repository

-- `InventoryReservationHandler.HandleReservationRequested`
unfoldable pub handle_reservation_requested :
    Context → ReservationRequest → Action HandlerState ReservationResult
handle_reservation_requested ctx request (entries, r) =
    let (outcome, entries', r') =
      execute ctx.store request.metadata.idempotency_key (reserve ctx request) entries r in
    (finish request outcome, (entries', r'))
