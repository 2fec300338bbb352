-- ===== src/Messaging/Consumer/Releases.antt =====
-- `handleReleaseDelivery` of internal/messaging/rabbitmq/consumer.go: a release request.
use stockflow_erp_mock.Common.{false, none, some, Result, ok, err, if◌then◌else◌}
use stockflow_erp_mock.Common.Int.{ℤ}
use stockflow_erp_mock.Inventory.Errors.{Error}
use stockflow_erp_mock.App.Release.{
  ReservationReleaseRequest, ReservationReleaseResult, ReservationReleaseDecision, released,
  release_decision_text,
}
use stockflow_erp_mock.App.FailureSimulation.{handle_simulated_release}
use stockflow_erp_mock.Messaging.Amqp.{Delivery, Codec}
use stockflow_erp_mock.Messaging.Decode.{decode_reservation_release_requested}
use stockflow_erp_mock.Messaging.Publisher.{Sent, publish_simulated_release_result}
use stockflow_erp_mock.Messaging.Consumer.{
  World, Environment, Method, observe, observe_failure, observe_hit, ack, nack,
  retry_or_dead_letter, is_permanent_handler_error, release_requested_routing_key,
  observe_processed, released_reservation,
}

unfoldable pub observe_release_decision : ReservationReleaseDecision → World → World
unfolding observe
observe_release_decision released w = observe released_reservation w
observe_release_decision _ w = w

module _ (codec : Codec) (max_retry_count : ℤ) (env : Environment) (delivery : Delivery) where
  unfoldable pub after_publish :
      ReservationReleaseRequest → ReservationReleaseResult → Sent → Method
  unfolding observe_release_decision
  after_publish request result (some e, log) w =
      retry_or_dead_letter max_retry_count env delivery release_requested_routing_key
        request.metadata.retry_count
        (observe_failure release_requested_routing_key "publisher_error" (record w { log = log }))
  after_publish request result (none, log) w = ack env (
      observe_release_decision result.decision (
        observe
          (observe_processed release_requested_routing_key (release_decision_text result.decision))
          (record w { log = log })))

  unfoldable pub after_handler :
      ReservationReleaseRequest → Result Error ReservationReleaseResult → Method
  unfolding after_publish observe_hit
  after_handler request (err e) w =
      let w' = observe_failure release_requested_routing_key "handler_error" w in
      if is_permanent_handler_error e
      then nack env false w'
      else retry_or_dead_letter max_retry_count env delivery release_requested_routing_key
          request.metadata.retry_count w'
  after_handler request (ok result) w =
      let w' = observe_hit result.idempotency_hit w in
      after_publish request result
        (publish_simulated_release_result codec env.publisher_mode env.first env.second result
          w'.log)
        w'

  unfoldable pub after_decode : Result Error ReservationReleaseRequest → Method
  unfolding after_handler
  after_decode (err e) w =
      nack env false (observe_failure release_requested_routing_key "invalid_message" w)
  after_decode (ok request) w =
      let (outcome, s) =
        handle_simulated_release env.context env.settings request
          (w.state.releases, w.state.repository) in
      after_handler request outcome
        (record w { state = record w.state { releases = s.0; repository = s.1 } })

  -- `handleReleaseDelivery`
  unfoldable pub handle_release_delivery : Method
  unfolding after_decode
  handle_release_delivery w = after_decode (decode_reservation_release_requested codec delivery) w
