-- ===== src/Messaging/Consumer.antt =====
-- internal/messaging/rabbitmq/consumer.go: what the loop of `Consume` does with one delivery.
pub mod Requests
pub mod Releases
pub mod Settlement
pub mod Retry
pub mod State
pub mod Consistency
pub mod Promises
pub mod Run
pub mod Loop
pub mod Metering
use stockflow_erp_mock.Common.{
  ℕ, Bool, true, false, not, ◌||◌, Option, none, some, String, List, [], ◌∷◌, Result, ok, err,
  if◌then◌else◌,
}
use mathlib.Core.Option
use stockflow_erp_mock.Common.Int.{ℤ, pos, ltb_ℤ, add_int}
use stockflow_erp_mock.Common.Dict.{Dict}
use stockflow_erp_mock.Inventory.Errors.{
  Error, is, other, invalid_argument, reservation_already_exists, idempotency_conflict,
}
use stockflow_erp_mock.Memory.Repository.{Repository}
use stockflow_erp_mock.App.Context.{Context}
use stockflow_erp_mock.App.Reservation.{
  ReservationRequest, ReservationResult, ReservationDecision, confirmed, rejected, decision_text,
}
use stockflow_erp_mock.App.Release.{
  ReservationReleaseRequest, ReservationReleaseResult, ReservationReleaseDecision, released,
  release_decision_text,
}
use stockflow_erp_mock.App.FailureMode.{Float64, FailureMode, FailureModeSettings}
use stockflow_erp_mock.App.FailureSimulation.{
  handle_simulated_reservation, handle_simulated_release,
}
use stockflow_erp_mock.Messaging.Amqp.{Delivery, Codec}
use stockflow_erp_mock.Messaging.Decode.{
  decode_reservation_requested, decode_reservation_release_requested,
}
use stockflow_erp_mock.Messaging.Publisher.{
  Effect, acked, nacked, Sent, Confirmation, Attempt, publish_result, publish_reservation_result,
  publish_reservation_release_result, publish_retry, publish_dead_letter,
}

abbrev pub requested_routing_key : String
requested_routing_key = "inventory.reservation.requested.v1"

abbrev pub release_requested_routing_key : String
release_requested_routing_key = "inventory.reservation.release.requested.v1"

-- The calls of `ConsumerMetrics`; durations are left out.
pub data Metric : Type 0 where
  observe_processed : (message_type outcome : String) → Metric
  increment_failed : (message_type reason : String) → Metric
  rejected_reservation confirmed_reservation released_reservation idempotency_hit : Metric

-- The state behind the handlers: the stores of the failure simulation, of the reservation handler
-- and of the release handler, and the repository that the last two share.
pub record SystemState : Type 0 where
  pub simulation : Dict ReservationResult
  pub entries : Dict ReservationResult
  pub releases : Dict ReservationReleaseResult
  pub repository : Repository

-- `metrics` is nil or the calls so far; both lists are newest first.
pub record World : Type 0 where
  pub state : SystemState
  pub log : List Effect
  pub metrics : Option (List Metric)

-- What a delivery meets: the context, the settings that the handler and the publisher read, the
-- random number, the broker's answers, and whether `Ack` and `Nack` succeed.
pub record Environment : Type 0 where
  pub context : Context
  pub settings : FailureModeSettings
  pub random : Float64
  pub publisher_mode : FailureMode
  pub first : Attempt
  pub second : Attempt
  pub forward : Confirmation
  pub settles : Bool

-- A method that returns an `error`.
abbrev pub Method : Type 0
Method = World → Option Error × World

unfoldable pub observe : Metric → World → World
observe m w = record w { metrics = Option.map (λ calls. m ∷ calls) w.metrics }

-- `observeFailure`
unfoldable pub observe_failure : String → String → World → World
unfolding observe
observe_failure message_type reason w =
    observe (observe_processed message_type "failed")
      (observe (increment_failed message_type reason) w)

settle : Bool → Effect → Method
settle settles e w =
    (if settles then none else some (other "settle delivery"), record w { log = e ∷ w.log })

unfoldable pub nack : Environment → Bool → Method
unfolding settle
nack env requeue = settle env.settles (nacked requeue)

unfoldable pub ack : Environment → Method
unfolding settle
ack env = settle env.settles acked

after_forward : Environment → Sent → Method
after_forward env (some e, log) w = nack env true (record w { log = log })
after_forward env (none, log) w = ack env (record w { log = log })

unfoldable pub retry_or_dead_letter :
    (max_retry_count : ℤ) → Environment → Delivery → String → (retry_count : ℤ) → Method
unfolding nack ack after_forward publish_retry publish_dead_letter
retry_or_dead_letter max_retry_count env delivery routing_key retry_count w =
    let next_retry_count = add_int retry_count (pos 1) in
    if ltb_ℤ max_retry_count next_retry_count
    then after_forward env (publish_dead_letter env.forward delivery routing_key retry_count w.log)
        w
    else after_forward env (publish_retry env.forward delivery routing_key next_retry_count w.log) w

unfoldable pub is_permanent_handler_error : Error → Bool
is_permanent_handler_error e =
    is e invalid_argument || (is e reservation_already_exists || is e idempotency_conflict)

unfoldable pub observe_hit : Bool → World → World
unfolding observe
observe_hit hit w = if hit then observe idempotency_hit w else w
