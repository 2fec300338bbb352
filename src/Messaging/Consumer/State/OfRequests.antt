-- ===== src/Messaging/Consumer/State/OfRequests.antt =====
-- After the handler has answered, a request leaves the state behind the handlers alone.
use stockflow_erp_mock.Common.{◌≡◌, refl, ◌∙◌, none, some, Result, ok, err, Bool-cases, inl, inr}
use stockflow_erp_mock.Common.Int.{ℤ}
use stockflow_erp_mock.Inventory.Errors.{Error}
use stockflow_erp_mock.App.Reservation.{
  ReservationRequest, ReservationResult, ReservationDecision, confirmed, rejected, unsupported,
}
use stockflow_erp_mock.Messaging.Amqp.{Delivery, Codec}
use stockflow_erp_mock.Messaging.Publisher.{Sent}
use stockflow_erp_mock.Messaging.Consumer.{
  World, Environment, observe_failure, ack, nack, is_permanent_handler_error,
}
use stockflow_erp_mock.Messaging.Consumer.Requests
use stockflow_erp_mock.Messaging.Consumer.Requests.{handle_delivery}
use stockflow_erp_mock.Messaging.Consumer.State.{state-retry_or_dead_letter, state-observe_hit}

module _ (codec : Codec) (max : ℤ) (env : Environment) (delivery : Delivery) where
  state-observe_decision :
      (decision : ReservationDecision) (w : World)
      → (Requests.observe_decision decision w).state ≡ w.state
  unfolding Requests.observe_decision
  state-observe_decision confirmed w = refl
  state-observe_decision rejected w = refl
  state-observe_decision (unsupported _) w = refl

  state-after_publish :
      (request : ReservationRequest) (result : ReservationResult) (sent : Sent) (w : World)
      → (Requests.after_publish codec max env delivery request result sent w).1.state ≡ w.state
  unfolding Requests.after_publish observe_failure ack
  state-after_publish request result (some e, log) w = state-retry_or_dead_letter _ _ _ _ _ _
  state-after_publish request result (none, log) w = state-observe_decision _ _

  pub state-after_handler :
      (request : ReservationRequest) (outcome : Result Error ReservationResult) (w : World)
      → (Requests.after_handler codec max env delivery request outcome w).1.state ≡ w.state
  unfolding Requests.after_handler observe_failure nack
  state-after_handler request (err e) w = elim (Bool-cases (is_permanent_handler_error e)) [
    | inl p ↦ rw p refl
    | inr p ↦ rw p (state-retry_or_dead_letter _ _ _ _ _ _)
  ]
  state-after_handler request (ok result) w =
      state-after_publish request result _ _ ∙ state-observe_hit result.idempotency_hit w
