-- ===== src/Messaging/Consumer/State.antt =====
-- Settling, forwarding, publishing and measuring leave the state behind the handlers alone.
pub mod OfRequests
pub mod OfReleases
use stockflow_erp_mock.Common.{
  ◌≡◌, refl, ap, sym, ◌∙◌, Bool, true, false, none, some, Result, ok, err, arith, Result-cases,
  Option-cases, Bool-cases, ◌⊎◌, inl, inr, if◌then◌else◌, Option, List, String,
}
use stockflow_erp_mock.Common.Int.{ℤ}
use stockflow_erp_mock.Common.Text.{Text, trim_space}
use stockflow_erp_mock.Common.Dict.{Dict, lookup, insert}
use stockflow_erp_mock.Inventory.Errors.{Error}
use stockflow_erp_mock.Memory.Repository.{Repository}
use stockflow_erp_mock.Memory.Repository.Invariant.{IsValid}
use stockflow_erp_mock.Memory.Repository.Retention.{Grows, Grows-refl}
use stockflow_erp_mock.Memory.Idempotency.Once.{execute-keeps}
use stockflow_erp_mock.App.Context.{Context}
use stockflow_erp_mock.App.Reservation.{
  ReservationRequest, ReservationResult, ReservationDecision, confirmed, rejected, HandlerState,
  handle_reservation_requested,
}
use stockflow_erp_mock.App.Reservation.Backing.{Agrees, Grows-Agrees}
use stockflow_erp_mock.App.Reservation.Confirmations.{IsConsistent}
use stockflow_erp_mock.App.FailureSimulation.Backing.{
  IsSimulationConsistent, handle_simulated-IsSimulationConsistent,
}
use stockflow_erp_mock.App.Release.{
  ReservationReleaseRequest, ReservationReleaseResult, ReservationReleaseDecision, released, failed,
}
use stockflow_erp_mock.App.Release.Backing.{
  ReleasesAgree, Grows-ReleasesAgree, IsReleaseConsistent, handle_release-IsReleaseConsistent,
}
use stockflow_erp_mock.App.FailureSimulation.{
  handle_simulated_reservation, handle_simulated_release, wait_for_processing_delay,
}
use stockflow_erp_mock.Messaging.Amqp.{Delivery, Codec}
use stockflow_erp_mock.Messaging.Decode.{
  decode_reservation_requested, decode_reservation_release_requested,
}
use stockflow_erp_mock.Messaging.Publisher.{Effect, Sent}
use stockflow_erp_mock.Messaging.Consumer.{
  World, SystemState, Environment, Metric, observe, observe_failure, observe_hit, ack, nack,
  retry_or_dead_letter, after_forward, is_permanent_handler_error,
}
use stockflow_erp_mock.Messaging.Consumer.Requests
use stockflow_erp_mock.Messaging.Consumer.Requests.{handle_delivery}
use stockflow_erp_mock.Messaging.Consumer.Releases
use stockflow_erp_mock.Messaging.Consumer.Releases.{handle_release_delivery}

pub state-retry_or_dead_letter :
    (max : ℤ) (env : Environment) (delivery : Delivery) (key : String) (n : ℤ) (w : World)
    → (retry_or_dead_letter max env delivery key n w).1.state ≡ w.state
unfolding retry_or_dead_letter
state-retry_or_dead_letter max env delivery key n w = ground arith

pub state-observe_hit : (hit : Bool) (w : World) → (observe_hit hit w).state ≡ w.state
unfolding observe_hit
state-observe_hit true w = refl
state-observe_hit false w = refl
