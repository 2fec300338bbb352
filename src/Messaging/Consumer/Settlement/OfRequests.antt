-- ===== src/Messaging/Consumer/Settlement/OfRequests.antt =====
-- `handleDelivery` settles its delivery once.
use stockflow_erp_mock.Common.{
  suc, ◌≡◌, refl, ap, ◌∙◌, none, some, Result, ok, err, inl, inr, Bool-cases, Result-cases,
}
use stockflow_erp_mock.Common.Int.{ℤ}
use stockflow_erp_mock.Inventory.Errors.{Error}
use stockflow_erp_mock.App.Reservation.{
  ReservationDecision, ReservationRequest, ReservationResult, confirmed,
}
use stockflow_erp_mock.Messaging.Amqp.{Delivery, Codec}
use stockflow_erp_mock.Messaging.Decode.{decode_reservation_requested}
use stockflow_erp_mock.Messaging.Publisher.{Sent}
use stockflow_erp_mock.Messaging.Consumer.{
  World, Environment, ack, nack, is_permanent_handler_error,
}
use stockflow_erp_mock.Messaging.Consumer.Requests
use stockflow_erp_mock.Messaging.Consumer.Requests.{handle_delivery}
use stockflow_erp_mock.Messaging.Consumer.Settlement.{
  settlements, settlements-publish_reservation_result, settlements-publish_result,
  settlements-retry_or_dead_letter, settlements-observe_failure, settlements-observe_hit,
}

settlements-observe_decision :
    (d : ReservationDecision) (w : World)
    → settlements (Requests.observe_decision d w).log ≡ settlements w.log
unfolding Requests.observe_decision
settlements-observe_decision confirmed w = refl
settlements-observe_decision _ w = refl

module _ (codec : Codec) (max : ℤ) (env : Environment) (delivery : Delivery) where
  settlements-after_publish :
      (request : ReservationRequest) (result : ReservationResult) (sent : Sent) (w : World)
      → settlements sent.1 ≡ settlements w.log
      → settlements (Requests.after_publish codec max env delivery request result sent w).1.log
        ≡ suc (settlements w.log)
  unfolding Requests.after_publish ack
  settlements-after_publish request result (some e, log) w h =
      settlements-retry_or_dead_letter max env delivery _ _ _
      ∙ ap suc (settlements-observe_failure _ _ _ ∙ h)
  settlements-after_publish request result (none, log) w h =
      rw settlements-observe_decision (ap suc h)

  settlements-after_handler :
      (request : ReservationRequest) (outcome : Result Error ReservationResult) (w : World)
      → settlements (Requests.after_handler codec max env delivery request outcome w).1.log
        ≡ suc (settlements w.log)
  unfolding Requests.after_handler nack
  settlements-after_handler request (err e) w = elim (Bool-cases (is_permanent_handler_error e)) [
    | inl p ↦ rw p (ap suc (settlements-observe_failure _ _ w))
    | inr p ↦ rw p (
        settlements-retry_or_dead_letter max env delivery _ _ _
        ∙ ap suc (settlements-observe_failure _ _ w))
  ]
  settlements-after_handler request (ok result) w =
      settlements-after_publish request result _ _ (
        settlements-publish_result env.publisher_mode _ _ _
          (settlements-publish_reservation_result codec env.first result)
          (settlements-publish_reservation_result codec env.second result))
      ∙ ap suc (settlements-observe_hit result.idempotency_hit w)

  -- Every delivery of a reservation request is settled, once, whatever happens on the way.
  pub handle_delivery_settles_once :
      (w : World)
      → settlements (handle_delivery codec max env delivery w).1.log ≡ suc (settlements w.log)
  unfolding handle_delivery nack
  handle_delivery_settles_once w =
      elim (Result-cases (decode_reservation_requested codec delivery)) [
        | inl (request, e) ↦ rw e (settlements-after_handler request _ _)
        | inr (x, e) ↦ rw e (ap suc (settlements-observe_failure _ _ w))
      ]
