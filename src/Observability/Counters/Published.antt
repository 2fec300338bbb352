-- ===== src/Observability/Counters/Published.antt =====
-- The decisions of the results that the publisher of internal/messaging/rabbitmq/publisher.go has
-- sent.
use stockflow_erp_mock.Common.{◌≡◌, ◌⊎◌, none, List, arith}
use stockflow_erp_mock.App.Reservation.{ReservationResult, confirmed, rejected}
use stockflow_erp_mock.App.Release
use stockflow_erp_mock.App.Release.{ReservationReleaseResult, released, failed}
use stockflow_erp_mock.App.FailureMode.{FailureMode, publish_failure, duplicate_response}
use stockflow_erp_mock.Messaging.Amqp.{Codec}
use stockflow_erp_mock.Messaging.Publisher.{
  Effect, Sent, Attempt, publish_result, publish_reservation_result,
  publish_reservation_release_result, new_reservation_result_message, reservation_result_payload,
  new_reservation_release_result_message, reservation_release_result_payload,
}

pub first_sent :
    (mode : FailureMode) (first second : List Effect → Sent) (log : List Effect)
    → (publish_result mode first second log).0 ≡ none
    → (first log).0 ≡ none
unfolding publish_result
first_sent publish_failure first second log h = ground (arith, h)
first_sent duplicate_response first second log h = ground (arith, h)
first_sent _ first second log h = h

pub sent_decision :
    (codec : Codec) (a : Attempt) (r : ReservationResult) (log : List Effect)
    → (publish_reservation_result codec a r log).0 ≡ none
    → (r.decision ≡ confirmed) ⊎ (r.decision ≡ rejected)
unfolding publish_reservation_result new_reservation_result_message reservation_result_payload
sent_decision codec a r log h = ground (arith, h)

pub sent_release_decision :
    (codec : Codec) (a : Attempt) (r : ReservationReleaseResult) (log : List Effect)
    → (publish_reservation_release_result codec a r log).0 ≡ none
    → (r.decision ≡ Release.released) ⊎ (r.decision ≡ Release.failed)
unfolding publish_reservation_release_result new_reservation_release_result_message
    reservation_release_result_payload
sent_release_decision codec a r log h = ground (arith, h)
