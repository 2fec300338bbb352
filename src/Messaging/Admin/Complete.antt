-- ===== src/Messaging/Admin/Complete.antt =====
-- `RequeueDeadLetters` where nothing fails.
use stockflow_erp_mock.Common.{
  ℕ, zero, suc, ◌+◌, ◌≤◌, ◌<◌, ◌≡◌, ap, ◌∙◌, true, false, none, some, String, List, [], ◌∷◌, length,
  ok, arith, ◌||◌,
}
use stockflow_erp_mock.Common.Int.{pos, leb_ℤ, ltb_ℤ}
use stockflow_erp_mock.Messaging.Amqp.{Delivery}
use stockflow_erp_mock.Messaging.Publisher.{
  Effect, acked, taken, acknowledged, publish_with_confirmation,
}
use stockflow_erp_mock.Messaging.Admin.{
  DeadLetterQueue, DeadLetterQueueConfig, dead_letter_config, max_requeue_limit, Iteration,
  requeue_loop, requeue_dead_letters,
}
use stockflow_erp_mock.Messaging.Admin.Requeue.{copied}

-- The iterations over a queue that holds `ds`: the context has no error, each `Get` returns the next
-- message, the broker confirms each copy, and each `Ack` succeeds.
abbrev pub served : List Delivery → ℕ → Iteration
served [] n = record {
  ctx_err = none;
  got = ok none;
  answer = acknowledged;
  acks = true;
  nacks = true;
}
served (d ∷ ds) zero = record {
  ctx_err = none;
  got = ok (some d);
  answer = acknowledged;
  acks = true;
  nacks = true;
}
served (d ∷ ds) (suc n) = served ds n

abbrev pub take {ℓ} : {A : Type ℓ} → ℕ → List A → List A
take zero ds = []
take (suc n) [] = []
take (suc n) (d ∷ ds) = d ∷ take n ds

-- The log after the messages were copied and acknowledged, in their order.
abbrev pub forward_all : String → List Delivery → List Effect → List Effect
forward_all routing_key [] log = log
forward_all routing_key (d ∷ ds) log =
    forward_all routing_key ds (acked ∷ copied routing_key d ∷ taken d ∷ log)

loop-served :
    (left : ℕ) (ds : List Delivery) (routing_key : String) (iterations : ℕ → Iteration) (k : ℕ)
    (log : List Effect)
    → ((j : ℕ) → iterations (k + j) ≡ served ds j)
    → requeue_loop left routing_key iterations k log
      ≡ (k + length (take left ds), none, forward_all routing_key (take left ds) log)
unfolding requeue_loop publish_with_confirmation
loop-served zero ds routing_key iterations k log h = ground arith
loop-served (suc left) [] routing_key iterations k log h =
    let now : iterations k ≡ served [] 0 = ap iterations (omega arith) ∙ h 0 in
    rw now (ground arith)
loop-served (suc left) (d ∷ ds) routing_key iterations k log h =
    let now : iterations k ≡ served (d ∷ ds) 0 = ap iterations (omega arith) ∙ h 0 in
    let rest =
      loop-served left ds routing_key iterations (suc k)
        (acked ∷ copied routing_key d ∷ taken d ∷ log)
        (λ j. ap iterations (omega arith) ∙ h (suc j)) in
    rw now (rest ∙ ground arith)

-- With a limit from 1 to 100, a queue that holds `ds` and each `Get` returns the next of, a context
-- without an error, a broker that confirms each copy and calls of `Ack` that succeed, a call copies
-- the first messages up to the limit in their order, acknowledges each, and returns their number.
pub requeue-served :
    (queue : DeadLetterQueue) (config : DeadLetterQueueConfig) (n : ℕ) (ds : List Delivery)
    (log : List Effect)
    → dead_letter_config queue ≡ ok config
    → 0 < n
    → n ≤ max_requeue_limit
    → requeue_dead_letters queue (pos n) (served ds) log
      ≡ (length (take n ds), none, forward_all config.routing_key (take n ds) log)
unfolding requeue_dead_letters
requeue-served queue config n ds log known positive small =
    let within : (leb_ℤ (pos n) (pos 0) || ltb_ℤ (pos max_requeue_limit) (pos n)) ≡ false =
      ground arith in
    rw (known, within)
      (loop-served n ds config.routing_key (served ds) 0 log (λ j. ap (served ds) (omega arith))
        ∙ ground arith)
