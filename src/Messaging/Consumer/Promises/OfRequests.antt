-- ===== src/Messaging/Consumer/Promises/OfRequests.antt =====
-- The confirmations that `handleDelivery` sends are kept.
use stockflow_erp_mock.Common.{
  ◌≡◌, ◌⊎◌, refl, ap, ◌∙◌, none, some, Result, ok, err, String, List, Bool-cases, Option-cases,
  Result-cases, inl, inr, arith, ℕ,
}
use stockflow_erp_mock.Common.Int.{ℤ}
use stockflow_erp_mock.Inventory.Errors.{Error}
use stockflow_erp_mock.Memory.Repository.{Repository}
use stockflow_erp_mock.App.Reservation.{
  ReservationRequest, ReservationResult, ReservationDecision, confirmed, rejected, unsupported,
}
use stockflow_erp_mock.App.Reservation.Backing.{Backed}
use stockflow_erp_mock.Messaging.Amqp.{Delivery, Publishing, Codec, Payload, reservation_confirmed}
use stockflow_erp_mock.Messaging.Publisher.{
  Effect, Sent, Attempt, confirmed_routing_key, rejected_routing_key, publish_reservation_result,
  inventory_exchange, new_reservation_result_message, reservation_result_payload,
}
use stockflow_erp_mock.Messaging.Consumer.{
  World, Environment, ack, nack, observe_failure, is_permanent_handler_error, requested_routing_key,
}
use stockflow_erp_mock.Messaging.Consumer.Promises.{
  IsKept, AllKept, publish_with_confirmation-AllKept, publish_result-AllKept,
  retry_or_dead_letter-AllKept, log-observe_hit,
}
use stockflow_erp_mock.Messaging.Consumer.Requests
use stockflow_erp_mock.Messaging.Publisher.Uuid.{new_uuid}
use stockflow_erp_mock.Common.Text.{Text, text}
use stockflow_erp_mock.Inventory.Model.{Time}

rejected_is_other : ¬ (rejected_routing_key ≡ confirmed_routing_key)
rejected_is_other h = absurd (ground (arith, ap text h))

decision_cases :
    (d : ReservationDecision)
    → (d ≡ confirmed) ⊎ ((d ≡ rejected) ⊎ ((s : String) × (d ≡ unsupported s)))
decision_cases confirmed = inl refl
decision_cases rejected = inr (inl refl)
decision_cases (unsupported s) = inr (inr (s, refl))

payload_is_confirmation :
    (result : ReservationResult) {key : String} {payload : Payload}
    → reservation_result_payload result ≡ ok (key, payload)
    → key ≡ confirmed_routing_key
    → (result.decision ≡ confirmed)
      × (payload
          ≡ reservation_confirmed result.request.reservation_id result.request.order_id
              result.request.sku result.request.quantity result.reservation.created_at)
unfolding reservation_result_payload
payload_is_confirmation result {key} {payload} h is_confirmed =
    elim (decision_cases result.decision) [
      | inl e ↦ (e, ground arith)
      | inr (inl e) ↦
          let own : rejected_routing_key ≡ key = ground arith in
          absurd (rejected_is_other (own ∙ is_confirmed))
      | inr (inr (s, e)) ↦ absurd (ground arith)
    ]

module _ (codec : Codec) (r : Repository) where
  -- What is sent for an answer is a confirmation only if the answer is `confirmed`.
  message-IsKept :
      (result : ReservationResult) (id : Text) (time : Time) {key : String} {p : Publishing}
      → (result.decision ≡ confirmed → Backed r result)
      → new_reservation_result_message codec result id time ≡ ok (key, p)
      → key ≡ confirmed_routing_key
      → IsKept codec r p
  unfolding new_reservation_result_message
  message-IsKept result id time {key} {p} backed h is_confirmed =
      elim (Result-cases (reservation_result_payload result)) [
        | inr (x, e) ↦ absurd (ground arith)
        | inl ((key', payload), e) ↦ elim (Option-cases (codec.marshal payload)) [
          | inl f ↦ absurd (ground arith)
          | inr (body, f) ↦
              let same : (key' ≡ key) × (body ≡ p.body) = ground arith in
              let (d, made) = payload_is_confirmation result e (same.0 ∙ is_confirmed) in
              record { result = result; backed = backed d; body = ground (arith, made) }
        ]
      ]

  message_sent-AllKept :
      (a : Attempt) (result : ReservationResult) (bytes : List ℕ) (log : List Effect)
      → a.random ≡ some bytes
      → (result.decision ≡ confirmed → Backed r result)
      → AllKept codec r log
      → AllKept codec r (publish_reservation_result codec a result log).1
  unfolding publish_reservation_result
  message_sent-AllKept a result bytes log e backed kept =
      elim (Result-cases (new_reservation_result_message codec result (new_uuid bytes) a.time)) [
        | inl ((key, p), f) ↦
            rw (e, f)
              (publish_with_confirmation-AllKept codec r a.answer inventory_exchange key p log
                (message-IsKept result (new_uuid bytes) a.time backed f) kept)
        | inr (x, f) ↦ rw (e, f) kept
      ]

  pub publish_reservation_result-AllKept :
      (a : Attempt) (result : ReservationResult) (log : List Effect)
      → (result.decision ≡ confirmed → Backed r result)
      → AllKept codec r log
      → AllKept codec r (publish_reservation_result codec a result log).1
  unfolding publish_reservation_result
  publish_reservation_result-AllKept a result log backed kept = elim (Option-cases a.random) [
    | inl e ↦ rw e kept
    | inr (bytes, e) ↦ message_sent-AllKept a result bytes log e backed kept
  ]

is_other : ¬ (requested_routing_key ≡ confirmed_routing_key)
is_other h = absurd (ground (arith, ap text h))

log-observe_decision :
    (decision : ReservationDecision) (w : World)
    → (Requests.observe_decision decision w).log ≡ w.log
unfolding Requests.observe_decision
log-observe_decision confirmed w = refl
log-observe_decision rejected w = refl
log-observe_decision (unsupported _) w = refl

module _ (codec : Codec) (r : Repository) (max : ℤ) (env : Environment) (delivery : Delivery) where
  after_publish-AllKept :
      (request : ReservationRequest) (result : ReservationResult) (sent : Sent) (w : World)
      → AllKept codec r sent.1
      → AllKept codec r (Requests.after_publish codec max env delivery request result sent w).1.log
  unfolding Requests.after_publish observe_failure ack
  after_publish-AllKept request result (some e, log) w kept =
      retry_or_dead_letter-AllKept codec r max env delivery requested_routing_key
        request.metadata.retry_count _ is_other kept
  after_publish-AllKept request result (none, log) w kept = rw log-observe_decision kept

  pub after_handler-AllKept :
      (request : ReservationRequest) (outcome : Result Error ReservationResult) (w : World)
      → ((result : ReservationResult)
          → outcome ≡ ok result
          → result.decision ≡ confirmed
          → Backed r result)
      → AllKept codec r w.log
      → AllKept codec r (Requests.after_handler codec max env delivery request outcome w).1.log
  unfolding Requests.after_handler observe_failure nack
  after_handler-AllKept request (err e) w backed kept =
      elim (Bool-cases (is_permanent_handler_error e)) [
        | inl p ↦ rw p kept
        | inr p ↦ rw p (
            retry_or_dead_letter-AllKept codec r max env delivery requested_routing_key
              request.metadata.retry_count _ is_other kept)
      ]
  after_handler-AllKept request (ok result) w backed kept =
      after_publish-AllKept request result _ _ (
        publish_result-AllKept codec r env.publisher_mode _ _ _
          (λ l. publish_reservation_result-AllKept codec r env.first result l (backed result refl))
          (λ l. publish_reservation_result-AllKept codec r env.second result l (backed result refl))
          (rw log-observe_hit kept))
