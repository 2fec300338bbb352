-- ===== src/Messaging/Consumer/Promises/OfReleases.antt =====
-- What `handleReleaseDelivery` sends is no confirmation.
use stockflow_erp_mock.Common.{
  ◌≡◌, ◌⊎◌, refl, ap, ◌∙◌, none, some, Result, ok, err, String, List, Bool-cases, Option-cases,
  Result-cases, inl, inr, arith, ℕ,
}
use stockflow_erp_mock.Common.Int.{ℤ}
use stockflow_erp_mock.Inventory.Errors.{Error}
use stockflow_erp_mock.Memory.Repository.{Repository}
use stockflow_erp_mock.App.Release.{
  ReservationReleaseRequest, ReservationReleaseResult, ReservationReleaseDecision, released, failed,
  unsupported,
}
use stockflow_erp_mock.Messaging.Amqp.{Delivery, Publishing, Codec, Payload}
use stockflow_erp_mock.Messaging.Publisher.{
  Effect, Sent, Attempt, confirmed_routing_key, released_routing_key, release_failed_routing_key,
  publish_reservation_release_result, inventory_exchange, new_reservation_release_result_message,
  reservation_release_result_payload,
}
use stockflow_erp_mock.Messaging.Consumer.{
  World, Environment, ack, nack, observe_failure, is_permanent_handler_error,
  release_requested_routing_key,
}
use stockflow_erp_mock.Messaging.Consumer.Promises.{
  AllKept, publish_with_confirmation-AllKept, publish_result-AllKept, retry_or_dead_letter-AllKept,
  log-observe_hit,
}
use stockflow_erp_mock.Messaging.Consumer.Releases
use stockflow_erp_mock.Messaging.Publisher.Uuid.{new_uuid}
use stockflow_erp_mock.Common.Text.{Text, text}
use stockflow_erp_mock.Inventory.Model.{Time}

released_is_other : ¬ (released_routing_key ≡ confirmed_routing_key)
released_is_other h = absurd (ground (arith, ap text h))

failed_is_other : ¬ (release_failed_routing_key ≡ confirmed_routing_key)
failed_is_other h = absurd (ground (arith, ap text h))

decision_cases :
    (d : ReservationReleaseDecision)
    → (d ≡ released) ⊎ ((d ≡ failed) ⊎ ((s : String) × (d ≡ unsupported s)))
decision_cases released = inl refl
decision_cases failed = inr (inl refl)
decision_cases (unsupported s) = inr (inr (s, refl))

payload_is_other :
    (result : ReservationReleaseResult) {key : String} {payload : Payload}
    → reservation_release_result_payload result ≡ ok (key, payload)
    → ¬ (key ≡ confirmed_routing_key)
unfolding reservation_release_result_payload
payload_is_other result {key} h is_confirmed = elim (decision_cases result.decision) [
  | inl e ↦
      let own : released_routing_key ≡ key = ground arith in released_is_other (own ∙ is_confirmed)
  | inr (inl e) ↦
      let own : release_failed_routing_key ≡ key = ground arith in
      failed_is_other (own ∙ is_confirmed)
  | inr (inr (s, e)) ↦ absurd (ground arith)
]

module _ (codec : Codec) (r : Repository) where
  message_is_other :
      (result : ReservationReleaseResult) (id : Text) (time : Time) {key : String} {p : Publishing}
      → new_reservation_release_result_message codec result id time ≡ ok (key, p)
      → ¬ (key ≡ confirmed_routing_key)
  unfolding new_reservation_release_result_message
  message_is_other result id time {key} {p} h is_confirmed =
      elim (Result-cases (reservation_release_result_payload result)) [
        | inr (x, e) ↦ absurd (ground arith)
        | inl ((key', payload), e) ↦ elim (Option-cases (codec.marshal payload)) [
          | inl f ↦ absurd (ground arith)
          | inr (body, f) ↦
              let same : key' ≡ key = ground arith in
              payload_is_other result e (same ∙ is_confirmed)
        ]
      ]

  message_sent-AllKept :
      (a : Attempt) (result : ReservationReleaseResult) (bytes : List ℕ) (log : List Effect)
      → a.random ≡ some bytes
      → AllKept codec r log
      → AllKept codec r (publish_reservation_release_result codec a result log).1
  unfolding publish_reservation_release_result
  message_sent-AllKept a result bytes log e kept =
      elim (Result-cases
        (new_reservation_release_result_message codec result (new_uuid bytes) a.time)) [
          | inl ((key, p), f) ↦
              rw (e, f)
                (publish_with_confirmation-AllKept codec r a.answer inventory_exchange key p log
                  (λ same. absurd (message_is_other result (new_uuid bytes) a.time f same)) kept)
          | inr (x, f) ↦ rw (e, f) kept
        ]

  pub publish_reservation_release_result-AllKept :
      (a : Attempt) (result : ReservationReleaseResult) (log : List Effect)
      → AllKept codec r log
      → AllKept codec r (publish_reservation_release_result codec a result log).1
  unfolding publish_reservation_release_result
  publish_reservation_release_result-AllKept a result log kept = elim (Option-cases a.random) [
    | inl e ↦ rw e kept
    | inr (bytes, e) ↦ message_sent-AllKept a result bytes log e kept
  ]

is_other : ¬ (release_requested_routing_key ≡ confirmed_routing_key)
is_other h = absurd (ground (arith, ap text h))

log-observe_release_decision :
    (decision : ReservationReleaseDecision) (w : World)
    → (Releases.observe_release_decision decision w).log ≡ w.log
unfolding Releases.observe_release_decision
log-observe_release_decision released w = refl
log-observe_release_decision failed w = refl
log-observe_release_decision (unsupported _) w = refl

module _ (codec : Codec) (r : Repository) (max : ℤ) (env : Environment) (delivery : Delivery) where
  after_publish-AllKept :
      (request : ReservationReleaseRequest) (result : ReservationReleaseResult) (sent : Sent)
      (w : World)
      → AllKept codec r sent.1
      → AllKept codec r (Releases.after_publish codec max env delivery request result sent w).1.log
  unfolding Releases.after_publish observe_failure ack
  after_publish-AllKept request result (some e, log) w kept =
      retry_or_dead_letter-AllKept codec r max env delivery release_requested_routing_key
        request.metadata.retry_count _ is_other kept
  after_publish-AllKept request result (none, log) w kept = rw log-observe_release_decision kept

  pub after_handler-AllKept :
      (request : ReservationReleaseRequest) (outcome : Result Error ReservationReleaseResult)
      (w : World)
      → AllKept codec r w.log
      → AllKept codec r (Releases.after_handler codec max env delivery request outcome w).1.log
  unfolding Releases.after_handler observe_failure nack
  after_handler-AllKept request (err e) w kept = elim (Bool-cases (is_permanent_handler_error e)) [
    | inl p ↦ rw p kept
    | inr p ↦ rw p (
        retry_or_dead_letter-AllKept codec r max env delivery release_requested_routing_key
          request.metadata.retry_count _ is_other kept)
  ]
  after_handler-AllKept request (ok result) w kept = after_publish-AllKept request result _ _ (
      publish_result-AllKept codec r env.publisher_mode _ _ _
        (λ l. publish_reservation_release_result-AllKept codec r env.first result l)
        (λ l. publish_reservation_release_result-AllKept codec r env.second result l)
        (rw log-observe_hit kept))
