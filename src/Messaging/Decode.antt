-- ===== src/Messaging/Decode.antt =====
-- internal/messaging/rabbitmq/reservation_requested.go and reservation_release_requested.go
use stockflow_erp_mock.Common.{
  ℕ, zero, suc, Bool, false, not, ◌&&◌, ◌||◌, Option, none, some, [], ◌∷◌, is_empty, leb, ◌==◌,
  Result, ok, err, fail_if, ◌>>=◌, ◌>>◌, if◌then◌else◌,
}
use stockflow_erp_mock.Common.Int.{ℤ, pos, ltb_ℤ, leb_ℤ, int_eq}
use stockflow_erp_mock.Common.Text.{Text, text, trim_space}
use stockflow_erp_mock.Common.Dict.{lookup}
use stockflow_erp_mock.Inventory.Errors.{Error, wraps, invalid_message}
use stockflow_erp_mock.App.Context.{MessageMetadata}
use stockflow_erp_mock.App.Reservation.{ReservationRequest}
use stockflow_erp_mock.App.Release.{ReservationReleaseRequest}
use stockflow_erp_mock.Messaging.Amqp.{Value, string, int, int32, int64, Table, Delivery, Codec}

-- The classes of `uuidPattern`: `n` hexadecimal digits, and what follows them.
unfoldable pub is_hex : ℕ → Bool
is_hex c = (leb b'0' c && leb c b'9') || ((leb b'a' c && leb c b'f') || (leb b'A' c && leb c b'F'))

unfoldable pub skip_hex : ℕ → Text → Option Text
skip_hex zero s = some s
skip_hex (suc n) [] = none
skip_hex (suc n) (c ∷ s) = if is_hex c then skip_hex n s else none

unfoldable pub skip_dash : Option Text → Option Text
skip_dash none = none
skip_dash (some []) = none
skip_dash (some (c ∷ s)) = if c == b'-' then some s else none

unfoldable pub skip_group : ℕ → Option Text → Option Text
skip_group n none = none
skip_group n (some s) = skip_hex n s

unfoldable pub at_end : Option Text → Bool
at_end none = false
at_end (some s) = is_empty s

-- `uuidPattern.MatchString`
unfoldable pub is_uuid : Text → Bool
unfolding is_hex skip_hex skip_dash skip_group at_end
is_uuid s = at_end (
    skip_group 12 (
      skip_dash (
        skip_group 4
          (skip_dash (skip_group 4 (skip_dash (skip_group 4 (skip_dash (skip_hex 8 s)))))))))

string_value : Option Value → Result Error Text
string_value (some (string s)) = do fail_if (is_empty (trim_space s)) (wraps invalid_message); ok s
string_value _ = err (wraps invalid_message)

unfoldable pub required_string_header : Table → Text → Result Error Text
unfolding string_value
required_string_header headers name = string_value (lookup name headers)

unfoldable pub required_uuid_header : Table → Text → Result Error Text
unfolding required_string_header
required_uuid_header headers name = do
  value ← required_string_header headers name
  fail_if (not (is_uuid value)) (wraps invalid_message)
  ok value

integer_value : Option Value → Result Error ℤ
integer_value (some (int n)) = ok n
integer_value (some (int32 n)) = ok n
integer_value (some (int64 n)) = ok n
integer_value _ = err (wraps invalid_message)

unfoldable pub required_integer_header : Table → Text → Result Error ℤ
unfolding integer_value
required_integer_header headers name = integer_value (lookup name headers)

-- A failed parse is an invalid message.
abbrev pub parsed {ℓ} : {A : Type ℓ} → Option A → Result Error A
parsed none = err (wraps invalid_message)
parsed (some a) = ok a

module _ (codec : Codec) where
  unfoldable pub decode_message_metadata : Table → Result Error MessageMetadata
  decode_message_metadata headers = do
    message_id ← required_uuid_header headers (text "message_id")
    correlation_id ← required_uuid_header headers (text "correlation_id")
    causation_id ← required_string_header headers (text "causation_id")
    idempotency_key ← required_string_header headers (text "idempotency_key")
    occurred_at_value ← required_string_header headers (text "occurred_at")
    occurred_at ← parsed (codec.parse_rfc3339 occurred_at_value)
    schema_version ← required_integer_header headers (text "schema_version")
    fail_if (not (int_eq schema_version (pos 1))) (wraps invalid_message)
    retry_count ← required_integer_header headers (text "retry_count")
    fail_if (ltb_ℤ retry_count (pos 0)) (wraps invalid_message)
    ok (record {
      message_id = message_id;
      correlation_id = correlation_id;
      causation_id = causation_id;
      idempotency_key = idempotency_key;
      occurred_at = occurred_at;
      schema_version = schema_version;
      retry_count = retry_count;
    })

  unfoldable pub decode_reservation_requested : Delivery → Result Error ReservationRequest
  unfolding decode_message_metadata
  decode_reservation_requested delivery = do
    metadata ← decode_message_metadata delivery.headers
    (payload, single) ← parsed (codec.decode_requested delivery.body)
    fail_if (not single) (wraps invalid_message)
    fail_if (is_empty (trim_space payload.reservation_id)) (wraps invalid_message)
    fail_if (is_empty (trim_space payload.order_id)) (wraps invalid_message)
    fail_if (is_empty (trim_space payload.sku)) (wraps invalid_message)
    fail_if (leb_ℤ payload.quantity (pos 0)) (wraps invalid_message)
    ok (record {
      metadata = metadata;
      reservation_id = payload.reservation_id;
      order_id = payload.order_id;
      sku = payload.sku;
      quantity = payload.quantity;
    })

  unfoldable pub decode_reservation_release_requested :
      Delivery → Result Error ReservationReleaseRequest
  unfolding decode_message_metadata
  decode_reservation_release_requested delivery = do
    metadata ← decode_message_metadata delivery.headers
    (payload, single) ← parsed (codec.decode_release_requested delivery.body)
    fail_if (not single) (wraps invalid_message)
    fail_if (is_empty (trim_space payload.reservation_id)) (wraps invalid_message)
    ok (record {
      metadata = metadata;
      reservation_id = payload.reservation_id;
      reason = payload.reason;
    })
