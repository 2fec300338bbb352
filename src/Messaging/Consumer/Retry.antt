-- ===== src/Messaging/Consumer/Retry.antt =====
-- The retries of a message: what a forwarded message decodes to, and how often one is sent on.
pub mod Exhaustion
use stockflow_erp_mock.Common.{
  ℕ, ◌+◌, ◌≤◌, ◌<◌, ◌≡◌, refl, ◌∙◌, true, false, List, ◌∷◌, ok, arith, String,
}
use stockflow_erp_mock.Common.Int.{
  ℤ, pos, ltb_ℤ, add_int, max_int, add_int-pos, wrap_int, int32_of, int32_of-pos,
}
use stockflow_erp_mock.Common.Text.{Text, text, text_eq}
use stockflow_erp_mock.Common.Dict.{lookup, insert, lookup-insert, lookup-insert_self}
use stockflow_erp_mock.App.Context.{MessageMetadata}
use stockflow_erp_mock.Messaging.Amqp.{Value, int32, Table, Delivery, Publishing, Codec}
use stockflow_erp_mock.Messaging.Decode.{
  decode_message_metadata, required_string_header, required_uuid_header, required_integer_header,
}
use stockflow_erp_mock.Messaging.Publisher.{
  Effect, published, acked, nacked, acknowledged, refused, publish_with_confirmation, publish_retry,
  publish_dead_letter, new_forwarded_delivery, retry_exchange, dead_letter_exchange,
}
use stockflow_erp_mock.Messaging.Consumer.{
  World, Environment, retry_or_dead_letter, after_forward, ack, nack,
}

-- Any other header is read as it was.
lookup-retry_count :
    (name : Text) (v : Value) (headers : Table)
    → text_eq (text "retry_count") name ≡ false
    → lookup name (insert (text "retry_count") v headers) ≡ lookup name headers
lookup-retry_count name v headers h = rw (lookup-insert, h)

string-insert :
    (name : Text) (v : Value) (headers : Table)
    → text_eq (text "retry_count") name ≡ false
    → required_string_header (insert (text "retry_count") v headers) name
      ≡ required_string_header headers name
unfolding required_string_header
string-insert name v headers h = rw (lookup-retry_count name v headers h)

uuid-insert :
    (name : Text) (v : Value) (headers : Table)
    → text_eq (text "retry_count") name ≡ false
    → required_uuid_header (insert (text "retry_count") v headers) name
      ≡ required_uuid_header headers name
unfolding required_uuid_header
uuid-insert name v headers h = rw (lookup-retry_count name v headers h)

integer-insert :
    (name : Text) (v : Value) (headers : Table)
    → text_eq (text "retry_count") name ≡ false
    → required_integer_header (insert (text "retry_count") v headers) name
      ≡ required_integer_header headers name
unfolding required_integer_header
integer-insert name v headers h = rw (lookup-retry_count name v headers h)

retry_count-insert :
    (n : ℤ) (headers : Table)
    → required_integer_header (insert (text "retry_count") (int32 n) headers) (text "retry_count")
      ≡ ok n
unfolding required_integer_header
retry_count-insert n headers = rw lookup-insert_self

-- The headers of a message that decodes, with another retry count, decode to the same metadata
-- with that count.
pub decode_message_metadata-insert :
    (codec : Codec) (headers : Table) (n : ℕ) {m : MessageMetadata}
    → decode_message_metadata codec headers ≡ ok m
    → decode_message_metadata codec (insert (text "retry_count") (int32 (pos n)) headers)
      ≡ ok (record m { retry_count = pos n })
unfolding decode_message_metadata text_eq
decode_message_metadata-insert codec headers n h =
    let v : Value = int32 (pos n) in
    ground (
      arith,
      uuid-insert (text "message_id") v headers refl,
      uuid-insert (text "correlation_id") v headers refl,
      string-insert (text "causation_id") v headers refl,
      string-insert (text "idempotency_key") v headers refl,
      string-insert (text "occurred_at") v headers refl,
      integer-insert (text "schema_version") v headers refl,
      retry_count-insert (pos n) headers,
    )

-- The log after a message was forwarded, or was not confirmed and goes back to its queue.
abbrev pub forwarded : Environment → String → String → Publishing → List Effect → List Effect
forwarded env exchange key p log = elim env.forward [
  | acknowledged ↦ acked ∷ published exchange key p ∷ log
  | refused ↦ nacked true ∷ log
  | _ ↦ nacked true ∷ published exchange key p ∷ log
]

-- Forwarding is one publishing and one settlement: acknowledged where the broker has confirmed the
-- publishing, and requeued where it has not.
log-after_forward :
    (env : Environment) (exchange key : String) (p : Publishing) (w : World)
    → (after_forward env (publish_with_confirmation env.forward exchange key p w.log) w).1.log
      ≡ forwarded env exchange key p w.log
unfolding after_forward publish_with_confirmation ack nack
log-after_forward env exchange key p w = ground arith

next_count : (n : ℕ) → n < max_int → add_int (pos n) (pos 1) ≡ pos (n + 1)
next_count n h = add_int-pos n 1 (omega arith)

-- A copy of a message below a retry limit that is at most the largest int32 goes to the retry
-- exchange under its routing key, unless the client refuses to send it; the message is acknowledged
-- where the broker confirms the copy, and goes back to its queue where it does not. The copy decodes
-- to the same metadata, with a retry count that is one larger, and has the same body.
pub retry_below_limit :
    (codec : Codec) (limit n : ℕ) (env : Environment) (delivery : Delivery) (key : String)
    (w : World) {m : MessageMetadata}
    → n < limit
    → limit ≤ 2147483647
    → decode_message_metadata codec delivery.headers ≡ ok m
    → m.retry_count ≡ pos n
    → (p : Publishing) × ((retry_or_dead_letter (pos limit) env delivery key m.retry_count w).1.log
        ≡ forwarded env retry_exchange key p w.log)
      × (decode_message_metadata codec p.headers ≡ ok (record m { retry_count = pos (n + 1) }))
      × (p.body ≡ delivery.body)
unfolding retry_or_dead_letter publish_retry new_forwarded_delivery
retry_below_limit codec limit n env delivery key w {m} lt small decoded count =
    let p : Publishing = new_forwarded_delivery delivery (pos (n + 1)) in
    let under : ltb_ℤ (pos limit) (pos (n + 1)) ≡ false = ground arith in
    (
      p,
      rw (count, next_count n (omega arith), under) (log-after_forward env retry_exchange key p w),
      rw (int32_of-pos (n + 1) (omega arith))
          (decode_message_metadata-insert codec delivery.headers (n + 1) decoded),
      refl,
    )

-- A message at the limit goes to the dead-letter exchange with the count that it has.
pub dead_letter_at_limit :
    (codec : Codec) (limit n : ℕ) (env : Environment) (delivery : Delivery) (key : String)
    (w : World) {m : MessageMetadata}
    → limit ≤ n
    → n ≤ 2147483647
    → decode_message_metadata codec delivery.headers ≡ ok m
    → m.retry_count ≡ pos n
    → (p : Publishing) × ((retry_or_dead_letter (pos limit) env delivery key m.retry_count w).1.log
        ≡ forwarded env dead_letter_exchange key p w.log)
      × (decode_message_metadata codec p.headers ≡ ok m)
      × (p.body ≡ delivery.body)
unfolding retry_or_dead_letter publish_dead_letter new_forwarded_delivery
dead_letter_at_limit codec limit n env delivery key w {m} le small decoded count =
    let p : Publishing = new_forwarded_delivery delivery (pos n) in
    let over : ltb_ℤ (pos limit) (pos (n + 1)) ≡ true = ground arith in
    (
      p,
      rw (count, next_count n (omega arith), over)
          (log-after_forward env dead_letter_exchange key p w),
      rw (int32_of-pos n small)
          (decode_message_metadata-insert codec delivery.headers n decoded ∙ ground arith),
      refl,
    )

-- At the largest `int` the count wraps: whatever the limit, such a message goes to the retry
-- exchange as a first attempt, with a count of 0, and not to the dead-letter exchange.
pub retry_count_wraps :
    (codec : Codec) (limit : ℕ) (env : Environment) (delivery : Delivery) (key : String) (w : World)
    {m : MessageMetadata}
    → decode_message_metadata codec delivery.headers ≡ ok m
    → m.retry_count ≡ pos max_int
    → (p : Publishing) × ((retry_or_dead_letter (pos limit) env delivery key m.retry_count w).1.log
        ≡ forwarded env retry_exchange key p w.log)
      × (decode_message_metadata codec p.headers ≡ ok (record m { retry_count = pos 0 }))
unfolding retry_or_dead_letter publish_retry new_forwarded_delivery add_int wrap_int int32_of
retry_count_wraps codec limit env delivery key w {m} decoded count =
    let next : ℤ = add_int (pos max_int) (pos 1) in
    let under : ltb_ℤ (pos limit) next ≡ false = ground arith in
    (
      new_forwarded_delivery delivery next,
      rw (count, under)
          (log-after_forward env retry_exchange key (new_forwarded_delivery delivery next) w),
      decode_message_metadata-insert codec delivery.headers 0 decoded,
    )
