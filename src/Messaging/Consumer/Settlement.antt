-- ===== src/Messaging/Consumer/Settlement.antt =====
-- The calls of `Ack` and `Nack` that the parts of the consumer make.
pub mod OfRequests
pub mod OfReleases
use stockflow_erp_mock.Common.{
  ℕ, suc, ◌+◌, ◌≡◌, refl, ap, ◌∙◌, Bool, true, false, Option, none, some, List, [], ◌∷◌, Result, ok,
  err, arith, ◌⊎◌, inl, inr, String, Bool-cases, Result-cases, Option-cases, if◌then◌else◌,
}
use stockflow_erp_mock.Common.Int.{ℤ, pos, ltb_ℤ, add_int}
use stockflow_erp_mock.Inventory.Errors.{Error}
use stockflow_erp_mock.App.Reservation.{
  ReservationDecision, ReservationRequest, ReservationResult, confirmed, rejected, unsupported,
}
use stockflow_erp_mock.App.Release
use stockflow_erp_mock.App.Release.{
  ReservationReleaseRequest, ReservationReleaseResult, released, failed,
}
use stockflow_erp_mock.App.FailureMode.{FailureMode, normal, publish_failure, duplicate_response}
use stockflow_erp_mock.Messaging.Amqp.{Delivery, Publishing, Codec}
use stockflow_erp_mock.Messaging.Decode.{
  decode_reservation_requested, decode_reservation_release_requested,
}
use stockflow_erp_mock.Messaging.Publisher.{
  Effect, published, acked, nacked, taken, settle_failed, Sent, Confirmation, refused, acknowledged,
  Attempt, publish_with_confirmation, publish_result, publish_reservation_result,
  publish_reservation_release_result, publish_retry, publish_dead_letter,
  new_reservation_result_message, new_reservation_release_result_message,
}
use stockflow_erp_mock.Messaging.Consumer.{
  World, Environment, Metric, observe, observe_failure, observe_hit, ack, nack,
  retry_or_dead_letter, after_forward, is_permanent_handler_error,
}
use stockflow_erp_mock.Messaging.Consumer.Requests.{handle_delivery}
use stockflow_erp_mock.Messaging.Consumer.Releases.{handle_release_delivery}

-- The calls of `Ack` and `Nack` in a log.
abbrev pub settlements : List Effect → ℕ
settlements [] = 0
settlements (published _ _ _ ∷ log) = settlements log
settlements (acked ∷ log) = suc (settlements log)
settlements (nacked _ ∷ log) = suc (settlements log)
settlements (taken _ ∷ log) = settlements log
settlements (settle_failed ∷ log) = settlements log

settlements-publish_with_confirmation :
    (c : Confirmation) (exchange key : String) (p : Publishing) (log : List Effect)
    → settlements (publish_with_confirmation c exchange key p log).1 ≡ settlements log
unfolding publish_with_confirmation
settlements-publish_with_confirmation refused exchange key p log = refl
settlements-publish_with_confirmation _ exchange key p log = refl

pub settlements-publish_reservation_result :
    (codec : Codec) (a : Attempt) (r : ReservationResult) (log : List Effect)
    → settlements (publish_reservation_result codec a r log).1 ≡ settlements log
unfolding publish_reservation_result
settlements-publish_reservation_result codec a r log = ground arith

pub settlements-publish_reservation_release_result :
    (codec : Codec) (a : Attempt) (r : ReservationReleaseResult) (log : List Effect)
    → settlements (publish_reservation_release_result codec a r log).1 ≡ settlements log
unfolding publish_reservation_release_result
settlements-publish_reservation_release_result codec a r log = ground arith

pub settlements-publish_result :
    (mode : FailureMode) (first second : List Effect → Sent) (log : List Effect)
    → ((l : List Effect) → settlements (first l).1 ≡ settlements l)
    → ((l : List Effect) → settlements (second l).1 ≡ settlements l)
    → settlements (publish_result mode first second log).1 ≡ settlements log
unfolding publish_result
settlements-publish_result publish_failure first second log p q = refl
settlements-publish_result duplicate_response first second log p q =
    ground (arith, p log, q (first log).1)
settlements-publish_result _ first second log p q = p log

-- The metrics leave the log alone.
pub settlements-observe_failure :
    (message_type reason : String) (w : World)
    → settlements (observe_failure message_type reason w).log ≡ settlements w.log
unfolding observe_failure
settlements-observe_failure message_type reason w = refl

pub settlements-observe_hit :
    (hit : Bool) (w : World) → settlements (observe_hit hit w).log ≡ settlements w.log
unfolding observe_hit
settlements-observe_hit true w = refl
settlements-observe_hit false w = refl

settlements-after_forward :
    (env : Environment) (sent : Sent) (w : World)
    → settlements sent.1 ≡ settlements w.log
    → settlements (after_forward env sent w).1.log ≡ suc (settlements w.log)
unfolding after_forward nack ack
settlements-after_forward env (none, log) w h = ap suc h
settlements-after_forward env (some e, log) w h = ap suc h

pub settlements-retry_or_dead_letter :
    (max : ℤ) (env : Environment) (delivery : Delivery) (key : String) (n : ℤ) (w : World)
    → settlements (retry_or_dead_letter max env delivery key n w).1.log ≡ suc (settlements w.log)
unfolding retry_or_dead_letter
settlements-retry_or_dead_letter max env delivery key n w =
    elim (Bool-cases (ltb_ℤ max (add_int n (pos 1)))) [
      | inl e ↦ rw e (
          settlements-after_forward env _ w
            (settlements-publish_with_confirmation env.forward _ key _ w.log))
      | inr e ↦ rw e (
          settlements-after_forward env _ w
            (settlements-publish_with_confirmation env.forward _ key _ w.log))
    ]
