-- ===== src/App/Release.antt =====
-- internal/app/inventory_reservation_release.go
pub mod Delivery
pub mod Backing
use stockflow_erp_mock.Common.{Bool, false, not, ◌&&◌, String, Result, ok, err, if◌then◌else◌}
use stockflow_erp_mock.Common.Text.{Text, text_eq}
use stockflow_erp_mock.Common.Dict.{Dict}
use stockflow_erp_mock.Inventory.Errors.{
  Error, wraps, is, reservation_not_found, reservation_not_active, idempotency_conflict,
}
use stockflow_erp_mock.Inventory.Model.{Reservation, zero_reservation}
use stockflow_erp_mock.Memory.Repository
use stockflow_erp_mock.Memory.Repository.{Repository}
use stockflow_erp_mock.Memory.Idempotency.{Action, execute}
use stockflow_erp_mock.App.Context.{MessageMetadata, Context}

pub record ReservationReleaseRequest : Type 0 where
  pub metadata : MessageMetadata
  pub reservation_id : Text
  pub reason : Text

pub data ReservationReleaseDecision : Type 0 where
  released failed : ReservationReleaseDecision
  unsupported : String → ReservationReleaseDecision

-- `string(decision)`
abbrev pub release_decision_text : ReservationReleaseDecision → String
release_decision_text released = "released"
release_decision_text failed = "release_failed"
release_decision_text (unsupported s) = s

abbrev pub reason_not_active : String
reason_not_active = "RESERVATION_NOT_ACTIVE"

abbrev pub reason_not_found : String
reason_not_found = "RESERVATION_NOT_FOUND"

pub record ReservationReleaseResult : Type 0 where
  pub decision : ReservationReleaseDecision
  pub failure_reason : String
  pub idempotency_hit : Bool
  pub request : ReservationReleaseRequest
  pub reservation : Reservation

abbrev pub released_result : ReservationReleaseRequest → Reservation → ReservationReleaseResult
released_result request reservation = record {
  decision = released;
  failure_reason = "";
  idempotency_hit = false;
  request = request;
  reservation = reservation;
}

abbrev pub failed_result : ReservationReleaseRequest → String → ReservationReleaseResult
failed_result request reason = record {
  decision = failed;
  failure_reason = reason;
  idempotency_hit = false;
  request = request;
  reservation = zero_reservation;
}

-- The result of `repository.Release`, and the repository that it leaves.
decide_release :
    ReservationReleaseRequest
    → Result Error (Repository × Reservation)
    → Action Repository ReservationReleaseResult
decide_release request (ok (r', reservation)) r = (ok (released_result request reservation), r')
decide_release request (err e) r =
    if is e reservation_not_found
    then (ok (failed_result request reason_not_found), r)
    else if is e reservation_not_active
    then (ok (failed_result request reason_not_active), r)
    else (err e, r)

unfoldable pub release :
    Context → ReservationReleaseRequest → Action Repository ReservationReleaseResult
unfolding decide_release
release ctx request r =
    decide_release request (Repository.release ctx.repository ctx.now request.reservation_id r) r

unfoldable pub same_reservation_release_request :
    ReservationReleaseRequest → ReservationReleaseRequest → Bool
same_reservation_release_request left right =
    text_eq left.reservation_id right.reservation_id && text_eq left.reason right.reason

-- What the handler makes of the store's answer.
abbrev pub finish_release :
    ReservationReleaseRequest
    → Result Error (ReservationReleaseResult × Bool)
    → Result Error ReservationReleaseResult
finish_release request (err e) = err e
finish_release request (ok (result, hit)) =
    if hit && not (same_reservation_release_request result.request request)
    then err (wraps idempotency_conflict)
    else ok (record result {
      idempotency_hit = hit;
      request = record result.request { metadata = request.metadata };
    })

-- The handler's idempotency store and the repository.
abbrev pub ReleaseState : Type 0
ReleaseState = Dict ReservationReleaseResult × Repository

-- `InventoryReservationReleaseHandler.HandleReservationReleaseRequested`
unfoldable pub handle_reservation_release_requested :
    Context → ReservationReleaseRequest → Action ReleaseState ReservationReleaseResult
handle_reservation_release_requested ctx request (entries, r) =
    let (outcome, entries', r') =
      execute ctx.store request.metadata.idempotency_key (release ctx request) entries r in
    (finish_release request outcome, (entries', r'))
