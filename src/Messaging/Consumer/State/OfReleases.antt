-- ===== src/Messaging/Consumer/State/OfReleases.antt =====
-- After the handler has answered, a release leaves the state behind the handlers alone.
use stockflow_erp_mock.Common.{◌≡◌, refl, ◌∙◌, none, some, Result, ok, err, Bool-cases, inl, inr}
use stockflow_erp_mock.Common.Int.{ℤ}
use stockflow_erp_mock.Inventory.Errors.{Error}
use stockflow_erp_mock.App.Release.{
  ReservationReleaseRequest, ReservationReleaseResult, ReservationReleaseDecision, released, failed,
  unsupported,
}
use stockflow_erp_mock.Messaging.Amqp.{Delivery, Codec}
use stockflow_erp_mock.Messaging.Publisher.{Sent}
use stockflow_erp_mock.Messaging.Consumer.{
  World, Environment, observe_failure, ack, nack, is_permanent_handler_error,
}
use stockflow_erp_mock.Messaging.Consumer.Releases
use stockflow_erp_mock.Messaging.Consumer.Releases.{handle_release_delivery}
use stockflow_erp_mock.Messaging.Consumer.State.{state-retry_or_dead_letter, state-observe_hit}

module _ (codec : Codec) (max : ℤ) (env : Environment) (delivery : Delivery) where
  state-observe_release_decision :
      (decision : ReservationReleaseDecision) (w : World)
      → (Releases.observe_release_decision decision w).state ≡ w.state
  unfolding Releases.observe_release_decision
  state-observe_release_decision released w = refl
  state-observe_release_decision failed w = refl
  state-observe_release_decision (unsupported _) w = refl

  state-after_publish :
      (request : ReservationReleaseRequest) (result : ReservationReleaseResult) (sent : Sent)
      (w : World)
      → (Releases.after_publish codec max env delivery request result sent w).1.state ≡ w.state
  unfolding Releases.after_publish observe_failure ack
  state-after_publish request result (some e, log) w = state-retry_or_dead_letter _ _ _ _ _ _
  state-after_publish request result (none, log) w = state-observe_release_decision _ _

  pub state-after_handler :
      (request : ReservationReleaseRequest) (outcome : Result Error ReservationReleaseResult)
      (w : World)
      → (Releases.after_handler codec max env delivery request outcome w).1.state ≡ w.state
  unfolding Releases.after_handler observe_failure nack
  state-after_handler request (err e) w = elim (Bool-cases (is_permanent_handler_error e)) [
    | inl p ↦ rw p refl
    | inr p ↦ rw p (state-retry_or_dead_letter _ _ _ _ _ _)
  ]
  state-after_handler request (ok result) w =
      state-after_publish request result _ _ ∙ state-observe_hit result.idempotency_hit w
