-- ===== src/Tests/Messages.antt =====
-- The consumer, on one delivery of a reservation request and one of a release request.
use stockflow_erp_mock.Common.{
  ◌≡◌, refl, true, some, [], ◌∷◌, ok, arith, ℕ, List, suc, ◌-◌, ◌≤◌, Bool, ◌==◌,
}
use stockflow_erp_mock.Common.Int.{ℤ, pos, max_int, int_eq}
use stockflow_erp_mock.Common.Text.{
  Text, text, text_eq, trim_space, trim_left, trim_right, is_space,
}
use stockflow_erp_mock.Common.Dict.{lookup}
use stockflow_erp_mock.App.Context.{MessageMetadata}
use stockflow_erp_mock.App.FailureMode.{initial_settings, normal}
use stockflow_erp_mock.Messaging.Amqp.{string, int32, int64, Table, Delivery, Publishing, Codec}
use stockflow_erp_mock.Messaging.Decode.{
  decode_message_metadata, required_uuid_header, required_string_header, required_integer_header,
  is_uuid,
}
use stockflow_erp_mock.Messaging.Publisher.{Attempt, acknowledged, retry_exchange}
use stockflow_erp_mock.Messaging.Publisher.Uuid.{new_uuid}
use stockflow_erp_mock.Messaging.Publisher.Identifiers.{new_uuid-is_uuid}
use stockflow_erp_mock.Messaging.Consumer.{
  World, Environment, requested_routing_key, retry_or_dead_letter,
}
use stockflow_erp_mock.Messaging.Consumer.Requests.{handle_delivery}
use stockflow_erp_mock.Messaging.Consumer.Releases.{handle_release_delivery}
use stockflow_erp_mock.Messaging.Consumer.Retry.{forwarded, retry_below_limit, retry_count_wraps}
use stockflow_erp_mock.Messaging.Consumer.Consistency.{IsSystemConsistent}
use stockflow_erp_mock.Messaging.Consumer.Run.{
  initial_state, Run, starts, requests, releases, Run-IsSystemConsistent,
}
use stockflow_erp_mock.Messaging.Consumer.Promises.{AllKept}
use stockflow_erp_mock.Messaging.Consumer.Run.Confirmed.{Run-AllKept}
use stockflow_erp_mock.Messaging.Publisher.Confirmations.{
  times_out, reads, confirmation_of, await_confirmation, session, unanswered,
  await_confirmation_lem,
}
use stockflow_erp_mock.Tests.Repository.{seed, initial, initial-new}
use stockflow_erp_mock.Tests.Handlers.{at}

-- Encoders that know one time and one payload.
abbrev pub codec : Codec
codec = record {
  parse_rfc3339 = λ s. some 7;
  format_rfc3339_nano = λ t. text "1970-01-01T00:00:00Z";
  decode_requested = λ body. some (
    record { reservation_id = text "r1"; order_id = text "o1"; sku = text "mug"; quantity = pos 2 },
    true,
  );
  decode_release_requested =
      λ body. some (record { reservation_id = text "r1"; reason = text "cancelled" }, true);
  marshal = λ payload. some [];
}

abbrev pub uuid : Text
uuid = text "123e4567-e89b-12d3-a456-426614174000"

-- The headers of a message that has been tried `n` times.
abbrev pub headers : ℤ → Table
headers n =
    (text "message_id", string uuid)
    ∷ (text "correlation_id", string uuid)
    ∷ (text "causation_id", string (text "order"))
    ∷ (text "idempotency_key", string (text "k1"))
    ∷ (text "occurred_at", string (text "1970-01-01T00:00:00Z"))
    ∷ (text "schema_version", int32 (pos 1))
    ∷ (text "retry_count", int64 n)
    ∷ []

abbrev pub delivered : ℤ → Delivery
delivered n = record {
  headers = headers n;
  content_type = text "application/json";
  correlation_id = uuid;
  message_id = uuid;
  timestamp = 7;
  body = [];
}

abbrev pub metadata : ℤ → MessageMetadata
metadata n = record {
  message_id = uuid;
  correlation_id = uuid;
  causation_id = text "order";
  idempotency_key = text "k1";
  occurred_at = 7;
  schema_version = pos 1;
  retry_count = n;
}

abbrev sixteen_bytes : List ℕ
sixteen_bytes = 1 ∷ 2 ∷ 3 ∷ 4 ∷ 5 ∷ 6 ∷ 7 ∷ 8 ∷ 9 ∷ 10 ∷ 11 ∷ 12 ∷ 13 ∷ 14 ∷ 15 ∷ 255 ∷ []

new_uuid-is_uuid_example : is_uuid (new_uuid sixteen_bytes) ≡ true
new_uuid-is_uuid_example = new_uuid-is_uuid sixteen_bytes refl

abbrev pub attempt : Attempt
attempt = record {
  random = some (1 ∷ 2 ∷ 3 ∷ 4 ∷ 5 ∷ 6 ∷ 7 ∷ 8 ∷ 9 ∷ 10 ∷ 11 ∷ 12 ∷ 13 ∷ 14 ∷ 15 ∷ 16 ∷ []);
  time = 11;
  answer = acknowledged;
}

abbrev pub environment : Environment
environment = record {
  context = at 10;
  settings = initial_settings;
  random = pos 0;
  publisher_mode = normal;
  first = attempt;
  second = attempt;
  forward = acknowledged;
  settles = true;
}

abbrev pub world : World
world = record { state = initial_state initial; log = []; metrics = some [] }

pub two_tries : decode_message_metadata codec (headers (pos 2)) ≡ ok (metadata (pos 2))
unfolding decode_message_metadata required_uuid_header required_string_header
    required_integer_header is_uuid lookup text_eq trim_space trim_left trim_right is_space int_eq
two_tries = refl

most_tries : decode_message_metadata codec (headers (pos max_int)) ≡ ok (metadata (pos max_int))
unfolding decode_message_metadata required_uuid_header required_string_header
    required_integer_header is_uuid lookup text_eq trim_space trim_left trim_right is_space int_eq
most_tries = refl

retry_below_limit_example :
    (p : Publishing) × ((retry_or_dead_letter
        (pos 3)
        environment
        (delivered (pos 2))
        requested_routing_key
        (pos 2)
        world).1.log
      ≡ forwarded environment retry_exchange requested_routing_key p [])
    × (decode_message_metadata codec p.headers ≡ ok (metadata (pos 3)))
    × (p.body ≡ [])
retry_below_limit_example =
    retry_below_limit codec 3 2 environment (delivered (pos 2)) requested_routing_key world
      (omega arith) (omega arith) two_tries refl

retry_count_wraps_example :
    (p : Publishing) × ((retry_or_dead_letter
        (pos 3)
        environment
        (delivered (pos max_int))
        requested_routing_key
        (pos max_int)
        world).1.log
      ≡ forwarded environment retry_exchange requested_routing_key p [])
    × (decode_message_metadata codec p.headers ≡ ok (metadata (pos 0)))
retry_count_wraps_example =
    retry_count_wraps codec 3 environment (delivered (pos max_int)) requested_routing_key world
      most_tries refl

reserved_and_released :
    Run codec
      (pos 3)
      (handle_release_delivery codec
        (pos 3)
        environment
        (delivered (pos 0))
        (handle_delivery codec (pos 3) environment (delivered (pos 0)) world).1).1
reserved_and_released =
    releases environment (delivered (pos 0))
      (requests environment (delivered (pos 0)) (starts seed (omega arith) initial-new refl refl))

Run-IsSystemConsistent_example :
    IsSystemConsistent
      (handle_release_delivery codec
        (pos 3)
        environment
        (delivered (pos 0))
        (handle_delivery codec (pos 3) environment (delivered (pos 0)) world).1).1.state
Run-IsSystemConsistent_example = Run-IsSystemConsistent codec (pos 3) reserved_and_released

abbrev last_world : World
last_world =
    (handle_release_delivery codec (pos 3) environment (delivered (pos 0))
      (handle_delivery codec (pos 3) environment (delivered (pos 0)) world).1).1

Run-AllKept_example : AllKept codec last_world.state.repository last_world.log
Run-AllKept_example = Run-AllKept codec (pos 3) reserved_and_released

-- The broker confirms the first message and refuses the second.
abbrev first_only : ℕ → Bool
first_only n = n == 1

await_confirmation_lem_example :
    (unanswered first_only (times_out ∷ []) ≤ (session first_only (times_out ∷ [])).sent)
    × ((await_confirmation first_only reads (session first_only (times_out ∷ []))).0
        ≡ confirmation_of (
            first_only (
              suc (session first_only (times_out ∷ [])).sent
              - unanswered first_only (times_out ∷ []))))
await_confirmation_lem_example = await_confirmation_lem first_only (times_out ∷ [])

-- After the first call has timed out, the second message, which the broker refuses, counts as
-- acknowledged.
late_confirmation :
    (await_confirmation first_only reads (session first_only (times_out ∷ []))).0 ≡ acknowledged
unfolding await_confirmation
late_confirmation = refl
