-- ===== src/Messaging/Consumer/Retry/Exhaustion.antt =====
-- A message that fails again and again: how often it is retried before it is a dead letter.
use stockflow_erp_mock.Common.{
  ℕ, zero, suc, ◌+◌, ◌-◌, ◌≤◌, ◌≡◌, ◌≢◌, refl, sym, ap, ◌∙◌, Bool, false, ◌&&◌, ◌==◌, List, ◌∷◌, ok,
  arith, String, inl, inr, Bool-cases, ltb,
}
use stockflow_erp_mock.Common.Int.{pos}
use stockflow_erp_mock.Common.Text.{Text, text}
use stockflow_erp_mock.Common.Dict.{lookup}
use stockflow_erp_mock.App.Context.{MessageMetadata}
use stockflow_erp_mock.Messaging.Amqp.{Table, Delivery, Publishing, Codec}
use stockflow_erp_mock.Messaging.Decode.{
  decode_message_metadata, required_string_header, required_uuid_header, required_integer_header,
}
use stockflow_erp_mock.Messaging.Publisher.{
  Effect, published, acked, acknowledged, retry_exchange, dead_letter_exchange,
}
use stockflow_erp_mock.Messaging.Consumer.{World, Environment, retry_or_dead_letter}
use stockflow_erp_mock.Messaging.Consumer.Retry.{forwarded, retry_below_limit, dead_letter_at_limit}

-- A header of the broker's own, as `x-death` is.
abbrev pub is_broker_header : Text → Bool
is_broker_header (a ∷ b ∷ _) = (a == 120) && (b == 45)
is_broker_header _ = false

-- A message that the retry queue has dropped is delivered again with its body and its headers,
-- and with headers that the broker adds.
abbrev pub Redelivers : (Publishing → Delivery) → Type 0
Redelivers redeliver =
    (p : Publishing)
    → ((name : Text)
        → is_broker_header name ≡ false
        → lookup name (redeliver p).headers ≡ lookup name p.headers)
      × ((redeliver p).body ≡ p.body)

decode_message_metadata-ext :
    (codec : Codec) (headers headers' : Table)
    → ((name : Text) → is_broker_header name ≡ false → lookup name headers ≡ lookup name headers')
    → decode_message_metadata codec headers ≡ decode_message_metadata codec headers'
unfolding decode_message_metadata required_string_header required_uuid_header
    required_integer_header
decode_message_metadata-ext codec headers headers' same =
    rw
      (
        same (text "message_id") refl,
        same (text "correlation_id") refl,
        same (text "causation_id") refl,
        same (text "idempotency_key") refl,
        same (text "occurred_at") refl,
        same (text "schema_version") refl,
        same (text "retry_count") refl,
      )
      refl

forwarded-eq :
    (env : Environment) (exchange exchange' key : String) (p q : Publishing) (log : List Effect)
    → forwarded env exchange key p log ≡ acked ∷ published exchange' key q ∷ log
    → (exchange ≡ exchange') × (p ≡ q)
forwarded-eq env exchange exchange' key p q log h = ground (arith, h)

retry≢dead_letter : retry_exchange ≢ dead_letter_exchange
retry≢dead_letter e = ground (arith, ap text e)

module _ (codec : Codec) (limit : ℕ) (key : String) (redeliver : Publishing → Delivery) where
  -- Each delivery is forwarded with the count that it decodes to, and what it meets may differ each
  -- time. `Exhausts d k dead`: `d` is sent to the retry exchange `k` times, confirmed and delivered
  -- again, and then as `dead` to the dead-letter exchange.
  pub data Exhausts : Delivery → ℕ → (dead : Publishing) → Type 0 where
    buries :
        {delivery : Delivery} {dead : Publishing} {m : MessageMetadata} (env : Environment)
        (w : World)
        → decode_message_metadata codec delivery.headers ≡ ok m
        → (retry_or_dead_letter (pos limit) env delivery key m.retry_count w).1.log
          ≡ acked ∷ published dead_letter_exchange key dead ∷ w.log
        → Exhausts delivery 0 dead
    retries :
        {delivery : Delivery} {copy dead : Publishing} {k : ℕ} {m : MessageMetadata}
        (env : Environment) (w : World)
        → decode_message_metadata codec delivery.headers ≡ ok m
        → (retry_or_dead_letter (pos limit) env delivery key m.retry_count w).1.log
          ≡ acked ∷ published retry_exchange key copy ∷ w.log
        → Exhausts (redeliver copy) k dead
        → Exhausts delivery (suc k) dead

  module _ (small : limit ≤ 2147483647) (same : Redelivers redeliver) where
    redelivered :
        (p : Publishing) {m : MessageMetadata}
        → decode_message_metadata codec p.headers ≡ ok m
        → decode_message_metadata codec (redeliver p).headers ≡ ok m
    redelivered p e =
        decode_message_metadata-ext codec (redeliver p).headers p.headers (same p).0 ∙ e

    exhausted :
        (n : ℕ) {delivery : Delivery} {k : ℕ} {dead : Publishing} {m : MessageMetadata}
        → n ≤ limit
        → decode_message_metadata codec delivery.headers ≡ ok m
        → m.retry_count ≡ pos n
        → Exhausts delivery k dead
        → (n + k ≡ limit)
          × (decode_message_metadata codec dead.headers ≡ ok (record m { retry_count = pos limit }))
          × (dead.body ≡ delivery.body)
    exhausted n {delivery} {dead = dead} {m} le decoded count (buries {m = m'} env w decoded' log) =
        let e : m' ≡ m = ground (arith, decoded, decoded') in
        let count' : m'.retry_count ≡ pos n = rw e count in
        elim (Bool-cases (ltb n limit)) [
          | inl below ↦
              let (p, log', _, _) =
                retry_below_limit codec limit n env delivery key w (ground (arith, below)) small
                  decoded' count' in
              absurd (
                retry≢dead_letter
                  (forwarded-eq env retry_exchange dead_letter_exchange key p dead w.log
                    (sym log' ∙ log)).0)
          | inr above ↦
              let at_limit : n ≡ limit = ground (arith, above) in
              let (p, log', same_metadata, same_body) =
                dead_letter_at_limit codec limit n env delivery key w (omega arith) (omega arith)
                  decoded' count' in
              let copied : p ≡ dead =
                (forwarded-eq env dead_letter_exchange dead_letter_exchange key p dead w.log
                  (sym log' ∙ log)).1 in
              (
                omega arith,
                ground (arith, copied, same_metadata, e, count, at_limit),
                ap (λ (x : Publishing). x.body) (sym copied) ∙ same_body,
              )
        ]
    exhausted n {delivery} {dead = dead} {m} le decoded count
          (retries {copy = copy} {k = k} {m = m'} env w decoded' log more) =
        let e : m' ≡ m = ground (arith, decoded, decoded') in
        let count' : m'.retry_count ≡ pos n = rw e count in
        elim (Bool-cases (ltb n limit)) [
          | inl below ↦
              let (p, log', next, same_body) =
                retry_below_limit codec limit n env delivery key w (ground (arith, below)) small
                  decoded' count' in
              let copied : p ≡ copy =
                (forwarded-eq env retry_exchange retry_exchange key p copy w.log
                  (sym log' ∙ log)).1 in
              let (times, metadata, body) =
                exhausted (n + 1) {m = record m' { retry_count = pos (n + 1) }}
                  (ground (arith, below)) (redelivered copy (rw (sym copied) next)) refl more in
              (
                omega arith,
                metadata ∙ rw e refl,
                body ∙ (same copy).1 ∙ ap (λ (x : Publishing). x.body) (sym copied) ∙ same_body,
              )
          | inr above ↦
              let (p, log', _, _) =
                dead_letter_at_limit codec limit n env delivery key w (ground (arith, above))
                  (omega arith) decoded' count' in
              absurd (
                retry≢dead_letter (
                  sym
                    (forwarded-eq env dead_letter_exchange retry_exchange key p copy w.log
                      (sym log' ∙ log)).0))
        ]

    exhausts :
        (k n : ℕ) (delivery : Delivery) {m : MessageMetadata}
        → n + k ≡ limit
        → decode_message_metadata codec delivery.headers ≡ ok m
        → m.retry_count ≡ pos n
        → (env : Environment) (w : World) → env.forward ≡ acknowledged
        → (dead : Publishing) × Exhausts delivery k dead
    exhausts zero n delivery {m} e decoded count env w confirmed =
        let (p, log, _, _) =
          dead_letter_at_limit codec limit n env delivery key w (omega arith) (omega arith) decoded
            count in
        (p, buries env w decoded (log ∙ rw confirmed refl))
    exhausts (suc k) n delivery {m} e decoded count env w confirmed =
        let (p, log, next, _) =
          retry_below_limit codec limit n env delivery key w (omega arith) small decoded count in
        let (dead, more) =
          exhausts k (n + 1) (redeliver p) (omega arith) (redelivered p next) refl env w
            confirmed in
        (dead, retries env w decoded (log ∙ rw confirmed refl) more)

    -- A message that decodes, with a retry count up to the limit, is retried as often as its count is
    -- below the limit and then forwarded to the dead-letter exchange, with the count at the limit and
    -- with its body: no other sequence of retries exists, and this one does as soon as the broker
    -- confirms what is forwarded. What each delivery meets is left open but for that.
    pub retries_end :
        (n : ℕ) (delivery : Delivery) {m : MessageMetadata}
        → n ≤ limit
        → decode_message_metadata codec delivery.headers ≡ ok m
        → m.retry_count ≡ pos n
        → ((k : ℕ) (dead : Publishing)
            → Exhausts delivery k dead
            → (n + k ≡ limit)
              × (decode_message_metadata codec dead.headers
                  ≡ ok (record m { retry_count = pos limit }))
              × (dead.body ≡ delivery.body))
          × ((env : Environment)
              → World
              → env.forward ≡ acknowledged
              → (dead : Publishing) × Exhausts delivery (limit - n) dead)
    retries_end n delivery le decoded count = (
      λ k dead way. exhausted n le decoded count way,
      λ env w confirmed.
          exhausts (limit - n) n delivery (omega arith) decoded count env w confirmed,
    )
