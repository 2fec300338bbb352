-- ===== src/Messaging/Consumer/Settlement/OfReleases.antt =====
-- `handleReleaseDelivery` settles its delivery once.
use stockflow_erp_mock.Common.{
  suc, ◌≡◌, refl, ap, ◌∙◌, none, some, Result, ok, err, inl, inr, Bool-cases, Result-cases,
}
use stockflow_erp_mock.Common.Int.{ℤ}
use stockflow_erp_mock.Inventory.Errors.{Error}
use stockflow_erp_mock.App.Release.{
  ReservationReleaseDecision, ReservationReleaseRequest, ReservationReleaseResult, released,
}
use stockflow_erp_mock.Messaging.Amqp.{Delivery, Codec}
use stockflow_erp_mock.Messaging.Decode.{decode_reservation_release_requested}
use stockflow_erp_mock.Messaging.Publisher.{Sent}
use stockflow_erp_mock.Messaging.Consumer.{
  World, Environment, ack, nack, is_permanent_handler_error,
}
use stockflow_erp_mock.Messaging.Consumer.Releases
use stockflow_erp_mock.Messaging.Consumer.Releases.{handle_release_delivery}
use stockflow_erp_mock.Messaging.Consumer.Settlement.{
  settlements, settlements-publish_reservation_release_result, settlements-publish_result,
  settlements-retry_or_dead_letter, settlements-observe_failure, settlements-observe_hit,
}

settlements-observe_release_decision :
    (d : ReservationReleaseDecision) (w : World)
    → settlements (Releases.observe_release_decision d w).log ≡ settlements w.log
unfolding Releases.observe_release_decision
settlements-observe_release_decision released w = refl
settlements-observe_release_decision _ w = refl

module _ (codec : Codec) (max : ℤ) (env : Environment) (delivery : Delivery) where
  settlements-after_publish :
      (request : ReservationReleaseRequest) (result : ReservationReleaseResult) (sent : Sent)
      (w : World)
      → settlements sent.1 ≡ settlements w.log
      → settlements (Releases.after_publish codec max env delivery request result sent w).1.log
        ≡ suc (settlements w.log)
  unfolding Releases.after_publish ack
  settlements-after_publish request result (some e, log) w h =
      settlements-retry_or_dead_letter max env delivery _ _ _
      ∙ ap suc (settlements-observe_failure _ _ _ ∙ h)
  settlements-after_publish request result (none, log) w h =
      rw settlements-observe_release_decision (ap suc h)

  settlements-after_handler :
      (request : ReservationReleaseRequest) (outcome : Result Error ReservationReleaseResult)
      (w : World)
      → settlements (Releases.after_handler codec max env delivery request outcome w).1.log
        ≡ suc (settlements w.log)
  unfolding Releases.after_handler nack
  settlements-after_handler request (err e) w = elim (Bool-cases (is_permanent_handler_error e)) [
    | inl p ↦ rw p (ap suc (settlements-observe_failure _ _ w))
    | inr p ↦ rw p (
        settlements-retry_or_dead_letter max env delivery _ _ _
        ∙ ap suc (settlements-observe_failure _ _ w))
  ]
  settlements-after_handler request (ok result) w =
      settlements-after_publish request result _ _ (
        settlements-publish_result env.publisher_mode _ _ _
          (settlements-publish_reservation_release_result codec env.first result)
          (settlements-publish_reservation_release_result codec env.second result))
      ∙ ap suc (settlements-observe_hit result.idempotency_hit w)

  -- Every delivery of a release request is settled, once, whatever happens on the way.
  pub handle_release_delivery_settles_once :
      (w : World)
      → settlements (handle_release_delivery codec max env delivery w).1.log
        ≡ suc (settlements w.log)
  unfolding handle_release_delivery nack
  handle_release_delivery_settles_once w =
      elim (Result-cases (decode_reservation_release_requested codec delivery)) [
        | inl (request, e) ↦ rw e (settlements-after_handler request _ _)
        | inr (x, e) ↦ rw e (ap suc (settlements-observe_failure _ _ w))
      ]
