-- ===== src/Observability/Counters/Delivered.antt =====
-- The counters after one delivery.
use stockflow_erp_mock.Common.{
  ◌≡◌, ◌⊎◌, refl, false, none, some, Result, ok, err, inl, inr, Bool-cases, Result-cases,
}
use stockflow_erp_mock.Common.Int.{ℤ}
use stockflow_erp_mock.Inventory.Errors.{Error}
use stockflow_erp_mock.App.Reservation
use stockflow_erp_mock.App.Release
use stockflow_erp_mock.App.Reservation.{ReservationRequest, ReservationResult}
use stockflow_erp_mock.App.Release.{ReservationReleaseRequest, ReservationReleaseResult}
use stockflow_erp_mock.Messaging.Amqp.{Delivery, Codec}
use stockflow_erp_mock.Messaging.Decode.{
  decode_reservation_requested, decode_reservation_release_requested,
}
use stockflow_erp_mock.Messaging.Publisher.{
  Sent, publish_reservation_result, publish_reservation_release_result,
}
use stockflow_erp_mock.Messaging.Consumer.{
  World, Environment, observe_hit, is_permanent_handler_error,
}
use stockflow_erp_mock.Messaging.Consumer.Requests
use stockflow_erp_mock.Messaging.Consumer.Requests.{handle_delivery}
use stockflow_erp_mock.Messaging.Consumer.Releases
use stockflow_erp_mock.Messaging.Consumer.Releases.{handle_release_delivery}
use stockflow_erp_mock.Messaging.Consumer.Settlement.{
  settlements, settlements-publish_result, settlements-publish_reservation_result,
  settlements-publish_reservation_release_result,
}
use stockflow_erp_mock.Observability.Counters.Balance.{
  invalid_message, handler_error, publisher_error,
}
use stockflow_erp_mock.Observability.Counters.Published.{
  first_sent, sent_decision, sent_release_decision,
}
use stockflow_erp_mock.Observability.Counters.Counted.{
  IsCounted, relogged-IsCounted, nack-IsCounted, ack-IsCounted, retry_or_dead_letter-IsCounted,
  failed_request-IsCounted, failed_release-IsCounted, hit-IsCounted, decided-IsCounted,
  release_decided-IsCounted,
}

module _ (codec : Codec) (max : ℤ) (env : Environment) (delivery : Delivery) where
  after_publish-IsCounted :
      (request : ReservationRequest) (result : ReservationResult) (sent : Sent) (w : World)
      → settlements sent.1 ≡ settlements w.log
      → (sent.0 ≡ none
          → (result.decision ≡ Reservation.confirmed) ⊎ (result.decision ≡ Reservation.rejected))
      → IsCounted 0 w
      → IsCounted 0 (Requests.after_publish codec max env delivery request result sent w).1
  unfolding Requests.after_publish
  after_publish-IsCounted request result (some e, log) w same known c =
      retry_or_dead_letter-IsCounted max env delivery _ _ _
        (failed_request-IsCounted publisher_error _ (relogged-IsCounted w _ refl same c))
  after_publish-IsCounted request result (none, log) w same known c =
      ack-IsCounted env _
        (decided-IsCounted result.decision _ (known refl) (relogged-IsCounted w _ refl same c))

  after_handler-IsCounted :
      (request : ReservationRequest) (outcome : Result Error ReservationResult) (w : World)
      → IsCounted 0 w
      → IsCounted 0 (Requests.after_handler codec max env delivery request outcome w).1
  unfolding Requests.after_handler
  after_handler-IsCounted request (err e) w c =
      let failed = failed_request-IsCounted handler_error w c in
      elim (Bool-cases (is_permanent_handler_error e)) [
        | inl p ↦ rw p (nack-IsCounted env false _ failed)
        | inr p ↦ rw p (retry_or_dead_letter-IsCounted max env delivery _ _ _ failed)
      ]
  after_handler-IsCounted request (ok result) w c =
      let log = (observe_hit result.idempotency_hit w).log in
      let first = publish_reservation_result codec env.first result in
      let second = publish_reservation_result codec env.second result in
      after_publish-IsCounted request result _ _
        (settlements-publish_result env.publisher_mode _ _ _
          (settlements-publish_reservation_result codec env.first result)
          (settlements-publish_reservation_result codec env.second result))
        (λ sent.
          sent_decision codec env.first result log
            (first_sent env.publisher_mode first second log sent))
        (hit-IsCounted result.idempotency_hit w c)

  pub handle_delivery-IsCounted :
      (w : World) → IsCounted 0 w → IsCounted 0 (handle_delivery codec max env delivery w).1
  unfolding handle_delivery
  handle_delivery-IsCounted w c =
      elim (Result-cases (decode_reservation_requested codec delivery)) [
        | inl (request, e) ↦
            rw e (after_handler-IsCounted request _ _ (relogged-IsCounted w _ refl refl c))
        | inr (x, e) ↦
            rw e (nack-IsCounted env false _ (failed_request-IsCounted invalid_message w c))
      ]

  after_release_publish-IsCounted :
      (request : ReservationReleaseRequest) (result : ReservationReleaseResult) (sent : Sent)
      (w : World)
      → settlements sent.1 ≡ settlements w.log
      → (sent.0 ≡ none → (result.decision ≡ Release.released) ⊎ (result.decision ≡ Release.failed))
      → IsCounted 0 w
      → IsCounted 0 (Releases.after_publish codec max env delivery request result sent w).1
  unfolding Releases.after_publish
  after_release_publish-IsCounted request result (some e, log) w same known c =
      retry_or_dead_letter-IsCounted max env delivery _ _ _
        (failed_release-IsCounted publisher_error _ (relogged-IsCounted w _ refl same c))
  after_release_publish-IsCounted request result (none, log) w same known c = ack-IsCounted env _ (
      release_decided-IsCounted result.decision _ (known refl) (relogged-IsCounted w _ refl same c))

  after_release_handler-IsCounted :
      (request : ReservationReleaseRequest) (outcome : Result Error ReservationReleaseResult)
      (w : World)
      → IsCounted 0 w
      → IsCounted 0 (Releases.after_handler codec max env delivery request outcome w).1
  unfolding Releases.after_handler
  after_release_handler-IsCounted request (err e) w c =
      let failed = failed_release-IsCounted handler_error w c in
      elim (Bool-cases (is_permanent_handler_error e)) [
        | inl p ↦ rw p (nack-IsCounted env false _ failed)
        | inr p ↦ rw p (retry_or_dead_letter-IsCounted max env delivery _ _ _ failed)
      ]
  after_release_handler-IsCounted request (ok result) w c =
      let log = (observe_hit result.idempotency_hit w).log in
      let first = publish_reservation_release_result codec env.first result in
      let second = publish_reservation_release_result codec env.second result in
      after_release_publish-IsCounted request result _ _
        (settlements-publish_result env.publisher_mode _ _ _
          (settlements-publish_reservation_release_result codec env.first result)
          (settlements-publish_reservation_release_result codec env.second result))
        (λ sent.
          sent_release_decision codec env.first result log
            (first_sent env.publisher_mode first second log sent))
        (hit-IsCounted result.idempotency_hit w c)

  pub handle_release_delivery-IsCounted :
      (w : World) → IsCounted 0 w → IsCounted 0 (handle_release_delivery codec max env delivery w).1
  unfolding handle_release_delivery
  handle_release_delivery-IsCounted w c =
      elim (Result-cases (decode_reservation_release_requested codec delivery)) [
        | inl (request, e) ↦
            rw e (after_release_handler-IsCounted request _ _ (relogged-IsCounted w _ refl refl c))
        | inr (x, e) ↦
            rw e (nack-IsCounted env false _ (failed_release-IsCounted invalid_message w c))
      ]
