-- ===== src/Messaging/Consumer/Requests.antt =====
-- `handleDelivery` of internal/messaging/rabbitmq/consumer.go: a reservation request.
use stockflow_erp_mock.Common.{false, none, some, Result, ok, err, if◌then◌else◌}
use stockflow_erp_mock.Common.Int.{ℤ}
use stockflow_erp_mock.Inventory.Errors.{Error}
use stockflow_erp_mock.App.Reservation.{
  ReservationRequest, ReservationResult, ReservationDecision, confirmed, rejected, decision_text,
}
use stockflow_erp_mock.App.FailureSimulation.{handle_simulated_reservation}
use stockflow_erp_mock.Messaging.Amqp.{Delivery, Codec}
use stockflow_erp_mock.Messaging.Decode.{decode_reservation_requested}
use stockflow_erp_mock.Messaging.Publisher.{Sent, publish_simulated_result}
use stockflow_erp_mock.Messaging.Consumer.{
  World, Environment, Method, observe, observe_failure, observe_hit, ack, nack,
  retry_or_dead_letter, is_permanent_handler_error, requested_routing_key, observe_processed,
  rejected_reservation, confirmed_reservation,
}

unfoldable pub observe_decision : ReservationDecision → World → World
unfolding observe
observe_decision confirmed w = observe confirmed_reservation w
observe_decision rejected w = observe rejected_reservation w
observe_decision _ w = w

module _ (codec : Codec) (max_retry_count : ℤ) (env : Environment) (delivery : Delivery) where
  unfoldable pub after_publish : ReservationRequest → ReservationResult → Sent → Method
  unfolding observe_decision
  after_publish request result (some e, log) w =
      retry_or_dead_letter max_retry_count env delivery requested_routing_key
        request.metadata.retry_count
        (observe_failure requested_routing_key "publisher_error" (record w { log = log }))
  after_publish request result (none, log) w = ack env (
      observe_decision result.decision (
        observe (observe_processed requested_routing_key (decision_text result.decision))
          (record w { log = log })))

  unfoldable pub after_handler : ReservationRequest → Result Error ReservationResult → Method
  unfolding after_publish observe_hit
  after_handler request (err e) w =
      let w' = observe_failure requested_routing_key "handler_error" w in
      if is_permanent_handler_error e
      then nack env false w'
      else retry_or_dead_letter max_retry_count env delivery requested_routing_key
          request.metadata.retry_count w'
  after_handler request (ok result) w =
      let w' = observe_hit result.idempotency_hit w in
      after_publish request result
        (publish_simulated_result codec env.publisher_mode env.first env.second result w'.log) w'

  unfoldable pub after_decode : Result Error ReservationRequest → Method
  unfolding after_handler
  after_decode (err e) w =
      nack env false (observe_failure requested_routing_key "invalid_message" w)
  after_decode (ok request) w =
      let (outcome, s) =
        handle_simulated_reservation env.context env.settings env.random request
          (w.state.simulation, (w.state.entries, w.state.repository)) in
      after_handler request outcome (record w {
        state = record w.state { simulation = s.0; entries = s.1.0; repository = s.1.1 };
      })

  -- `handleDelivery`
  unfoldable pub handle_delivery : Method
  unfolding after_decode
  handle_delivery w = after_decode (decode_reservation_requested codec delivery) w
