-- ===== src/Messaging/Publisher.antt =====
-- internal/messaging/rabbitmq/publisher.go and failure_simulation_publisher.go. What a publisher
-- sends is logged, newest first; how the broker answers each message is an argument.
pub mod Uuid
pub mod Identifiers
pub mod Confirmations
use stockflow_erp_mock.Common.{
  ℕ, Bool, Option, none, some, String, List, [], ◌∷◌, ◌++◌, Result, ok, err, ◌>>=◌, ◌%◌,
}
use stockflow_erp_mock.Common.Int.{ℤ, pos, int32_of}
use stockflow_erp_mock.Common.Text.{Text, text}
use stockflow_erp_mock.Common.Dict.{insert}
use stockflow_erp_mock.Inventory.Errors.{Error, wraps, other, simulated_publish_failure}
use stockflow_erp_mock.Inventory.Model.{Time}
use stockflow_erp_mock.App.Reservation.{
  ReservationResult, ReservationDecision, confirmed, rejected, unsupported, decision_text,
}
use stockflow_erp_mock.App.Release
use stockflow_erp_mock.App.Release.{
  ReservationReleaseResult, ReservationReleaseDecision, released, failed, release_decision_text,
}
use stockflow_erp_mock.App.FailureMode
use stockflow_erp_mock.App.FailureMode.{
  FailureMode, FailureModeSettings, publish_failure, duplicate_response,
}
use stockflow_erp_mock.Messaging.Amqp.{
  Value, string, int32, Table, Delivery, Publishing, Codec, Payload, reservation_confirmed,
  reservation_rejected, reservation_released, reservation_release_failed,
}
use stockflow_erp_mock.Messaging.Publisher.Uuid.{new_uuid}

abbrev pub inventory_exchange : String
inventory_exchange = "stockflow.inventory"

abbrev pub retry_exchange : String
retry_exchange = "stockflow.inventory.retry"

abbrev pub dead_letter_exchange : String
dead_letter_exchange = "stockflow.inventory.dlx"

abbrev pub confirmed_routing_key : String
confirmed_routing_key = "inventory.reservation.confirmed.v1"

abbrev pub rejected_routing_key : String
rejected_routing_key = "inventory.reservation.rejected.v1"

abbrev pub released_routing_key : String
released_routing_key = "inventory.reservation.released.v1"

abbrev pub release_failed_routing_key : String
release_failed_routing_key = "inventory.reservation.release_failed.v1"

-- `reservationResultPayload`
payload_of : ReservationDecision → ReservationResult → Result Error (String × Payload)
payload_of confirmed r = ok (
  confirmed_routing_key,
  reservation_confirmed r.request.reservation_id r.request.order_id r.request.sku r.request.quantity
      r.reservation.created_at,
)
payload_of rejected r = ok (
  rejected_routing_key,
  reservation_rejected r.request.reservation_id r.request.order_id r.request.sku r.request.quantity
      r.rejection_reason "Requested quantity exceeds available stock.",
)
payload_of (unsupported d) r = err (other "unsupported reservation decision")

unfoldable pub reservation_result_payload : ReservationResult → Result Error (String × Payload)
unfolding payload_of
reservation_result_payload r = payload_of r.decision r

released_payload : Text → Option Time → Result Error (String × Payload)
released_payload id none = err (other "released reservation timestamp is required")
released_payload id (some t) = ok (released_routing_key, reservation_released id t)

release_payload_of :
    ReservationReleaseDecision → ReservationReleaseResult → Result Error (String × Payload)
release_payload_of released r = released_payload r.request.reservation_id r.reservation.released_at
release_payload_of failed r = ok (
  release_failed_routing_key,
  reservation_release_failed r.request.reservation_id r.failure_reason
      "Reservation release could not be completed.",
)
release_payload_of (Release.unsupported d) r =
    err (other "unsupported reservation release decision")

-- `reservationReleaseResultPayload`
unfoldable pub reservation_release_result_payload :
    ReservationReleaseResult → Result Error (String × Payload)
unfolding released_payload release_payload_of
reservation_release_result_payload r = release_payload_of r.decision r

abbrev pub marshalled {ℓ} : {A : Type ℓ} → Option A → Result Error A
marshalled none = err (other "marshal payload")
marshalled (some a) = ok a

module _ (codec : Codec) where
  -- The headers of every outbound message.
  abbrev pub result_headers : (message_id correlation_id causation_id key : Text) → Time → Table
  result_headers message_id correlation_id causation_id key occurred_at =
      (text "message_id", string message_id)
      ∷ (text "correlation_id", string correlation_id)
      ∷ (text "causation_id", string causation_id)
      ∷ (text "idempotency_key", string key)
      ∷ (text "occurred_at", string (codec.format_rfc3339_nano occurred_at))
      ∷ (text "schema_version", int32 (pos 1))
      ∷ (text "retry_count", int32 (pos 0))
      ∷ []

  unfoldable pub new_reservation_result_message :
      ReservationResult → Text → Time → Result Error (String × Publishing)
  unfolding reservation_result_payload
  new_reservation_result_message r message_id occurred_at = do
    (routing_key, payload) ← reservation_result_payload r
    body ← marshalled (codec.marshal payload)
    ok (
      routing_key,
      record {
        headers =
            result_headers message_id r.request.metadata.correlation_id
              r.request.metadata.message_id
              (r.request.metadata.idempotency_key ++ text ":" ++ text (decision_text r.decision))
              occurred_at;
        content_type = text "application/json";
        correlation_id = r.request.metadata.correlation_id;
        message_id = message_id;
        timestamp = occurred_at;
        body = body;
      },
    )

  unfoldable pub new_reservation_release_result_message :
      ReservationReleaseResult → Text → Time → Result Error (String × Publishing)
  unfolding reservation_release_result_payload
  new_reservation_release_result_message r message_id occurred_at = do
    (routing_key, payload) ← reservation_release_result_payload r
    body ← marshalled (codec.marshal payload)
    ok (
      routing_key,
      record {
        headers =
            result_headers message_id r.request.metadata.correlation_id
              r.request.metadata.message_id
              (r.request.metadata.idempotency_key
                ++ text ":"
                ++ text (release_decision_text r.decision))
              occurred_at;
        content_type = text "application/json";
        correlation_id = r.request.metadata.correlation_id;
        message_id = message_id;
        timestamp = occurred_at;
        body = body;
      },
    )

-- A message that is sent on with another retry count.
unfoldable pub new_forwarded_delivery : Delivery → ℤ → Publishing
new_forwarded_delivery delivery retry_count = record {
  headers = insert (text "retry_count") (int32 (int32_of retry_count)) delivery.headers;
  content_type = delivery.content_type;
  correlation_id = delivery.correlation_id;
  message_id = delivery.message_id;
  timestamp = delivery.timestamp;
  body = delivery.body;
}

-- What the consumer's loop and the administration do to the broker, as entries of a log. A message
-- that `Get` returned is `taken`; `settle_failed` says that the `Ack` or `Nack` before it failed.
pub data Effect : Type 0 where
  published : (exchange routing_key : String) → Publishing → Effect
  acked : Effect
  nacked : (requeue : Bool) → Effect
  taken : Delivery → Effect
  settle_failed : Effect

-- How publishing a message ends: refused by the client, or sent and then confirmed or not.
pub data Confirmation : Type 0 where
  refused channel_closed not_acknowledged timed_out acknowledged : Confirmation

-- The `error` of a method, and the log.
abbrev pub Sent : Type 0
Sent = Option Error × List Effect

unfoldable pub publish_with_confirmation :
    Confirmation → String → String → Publishing → List Effect → Sent
publish_with_confirmation refused exchange routing_key p log =
    (some (other "publish RabbitMQ message"), log)
publish_with_confirmation acknowledged exchange routing_key p log =
    (none, published exchange routing_key p ∷ log)
publish_with_confirmation _ exchange routing_key p log =
    (some (other "wait for confirmation"), published exchange routing_key p ∷ log)

-- What a `Publish…Result` finds: the bytes of `rand.Read`, the time, the broker's answer.
pub record Attempt : Type 0 where
  pub random : Option (List ℕ)
  pub time : Time
  pub answer : Confirmation

publish_message : Confirmation → Result Error (String × Publishing) → List Effect → Sent
publish_message answer (err e) log = (some e, log)
publish_message answer (ok (routing_key, p)) log =
    publish_with_confirmation answer inventory_exchange routing_key p log

-- Without an id the method ends before anything is sent.
with_message_id : Option (List ℕ) → (Text → List Effect → Sent) → List Effect → Sent
with_message_id none send log = (some (other "generate message ID"), log)
with_message_id (some bytes) send log = send (new_uuid bytes) log

unfoldable pub publish_reservation_result : Codec → Attempt → ReservationResult → List Effect → Sent
unfolding publish_message with_message_id publish_with_confirmation
publish_reservation_result codec a r =
    with_message_id a.random
      λ id. publish_message a.answer (new_reservation_result_message codec r id a.time)

unfoldable pub publish_reservation_release_result :
    Codec → Attempt → ReservationReleaseResult → List Effect → Sent
unfolding publish_message with_message_id publish_with_confirmation
publish_reservation_release_result codec a r =
    with_message_id a.random
      λ id. publish_message a.answer (new_reservation_release_result_message codec r id a.time)

unfoldable pub publish_retry : Confirmation → Delivery → String → ℤ → List Effect → Sent
publish_retry answer delivery routing_key retry_count =
    publish_with_confirmation answer retry_exchange routing_key
      (new_forwarded_delivery delivery retry_count)

unfoldable pub publish_dead_letter : Confirmation → Delivery → String → ℤ → List Effect → Sent
publish_dead_letter answer delivery routing_key retry_count =
    publish_with_confirmation answer dead_letter_exchange routing_key
      (new_forwarded_delivery delivery retry_count)

-- `FailureSimulationPublisher.publishResult` over the calls of `publish`, the first and the second.
then_again : Sent → (List Effect → Sent) → Sent
then_again (some e, log) publish = (some e, log)
then_again (none, log) publish = publish log

unfoldable pub publish_result :
    FailureMode → (List Effect → Sent) → (List Effect → Sent) → List Effect → Sent
unfolding then_again
publish_result publish_failure first second log = (some (wraps simulated_publish_failure), log)
publish_result duplicate_response first second log = then_again (first log) second
publish_result _ first second log = first log

-- `FailureSimulationPublisher.PublishReservationResult` and `PublishReservationReleaseResult`. Its
-- other two methods are those of the publisher.
abbrev pub publish_simulated_result :
    Codec → FailureMode → (first second : Attempt) → ReservationResult → List Effect → Sent
publish_simulated_result codec mode first second r =
    publish_result mode (publish_reservation_result codec first r)
      (publish_reservation_result codec second r)

abbrev pub publish_simulated_release_result :
    Codec → FailureMode → (first second : Attempt) → ReservationReleaseResult → List Effect → Sent
publish_simulated_release_result codec mode first second r =
    publish_result mode (publish_reservation_release_result codec first r)
      (publish_reservation_release_result codec second r)
