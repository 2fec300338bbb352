-- ===== src/Messaging/Admin/Requeue.antt =====
-- What `RequeueDeadLetters` does to the messages that it takes from the dead-letter queue.
use Prim.Native.Nat.{min}
use stockflow_erp_mock.Common.{
  ℕ, zero, suc, ◌+◌, ◌≤◌, ◌≡◌, true, Option, none, some, String, List, ◌∷◌, Result, ok, err, arith,
  Bool-cases, inl, inr, ◌||◌,
}
use stockflow_erp_mock.Common.Int.{ℤ, pos, pos_part, leb_ℤ, ltb_ℤ}
use stockflow_erp_mock.Inventory.Errors.{Error}
use stockflow_erp_mock.Memory.Repository.{CtxErr}
use stockflow_erp_mock.Messaging.Amqp.{Delivery}
use stockflow_erp_mock.Messaging.Publisher.{
  Effect, published, acked, nacked, taken, settle_failed, Confirmation, refused, acknowledged,
  publish_with_confirmation, inventory_exchange, new_forwarded_delivery,
}
use stockflow_erp_mock.Messaging.Admin.{
  DeadLetterQueue, DeadLetterQueueConfig, dead_letter_config, max_requeue_limit, Iteration,
  Requeued, after_copy, after_get, iterate, requeue_loop, requeue_dead_letters,
}

-- The copy of a dead letter, sent to the exchange that its queue reads from.
abbrev pub copied : String → Delivery → Effect
copied routing_key d = published inventory_exchange routing_key (new_forwarded_delivery d (pos 0))

-- A log in which `n` messages were taken, copied and then acknowledged.
pub data Forwarded (routing_key : String) (before : List Effect) : ℕ → List Effect → Type 0 where
  start : Forwarded routing_key before 0 before
  more :
      {n : ℕ} {log : List Effect} (d : Delivery)
      → Forwarded routing_key before n log
      → Forwarded routing_key before (suc n) (acked ∷ copied routing_key d ∷ taken d ∷ log)

-- How the loop ends: with no further message taken; with one whose copy was not sent or not confirmed
-- and that a `Nack` gives back to its queue, if it succeeds; or with one whose copy was confirmed and
-- whose `Ack` fails.
pub data Ended (routing_key : String) : Option Error → List Effect → List Effect → Type 0 where
  idle : (e : Option Error) (log : List Effect) → Ended routing_key e log log
  unsent :
      (e : Error) (d : Delivery) (log : List Effect)
      → Ended routing_key (some e) log (nacked true ∷ taken d ∷ log)
  unsent_and_held :
      (e : Error) (d : Delivery) (log : List Effect)
      → Ended routing_key (some e) log (settle_failed ∷ nacked true ∷ taken d ∷ log)
  unconfirmed :
      (e : Error) (d : Delivery) (log : List Effect)
      → Ended routing_key (some e) log (nacked true ∷ copied routing_key d ∷ taken d ∷ log)
  unconfirmed_and_held :
      (e : Error) (d : Delivery) (log : List Effect)
      → Ended routing_key
          (some e)
          log
          (settle_failed ∷ nacked true ∷ copied routing_key d ∷ taken d ∷ log)
  unsettled :
      (e : Error) (d : Delivery) (log : List Effect)
      → Ended routing_key
          (some e)
          log
          (settle_failed ∷ acked ∷ copied routing_key d ∷ taken d ∷ log)

-- What a call reports, of a log that was `before`.
pub record Reports (routing_key : String) (bound : ℕ) (before : List Effect) (out : Requeued)
    : Type 0 where
  pub middle : List Effect
  pub counted : Forwarded routing_key before out.0 middle
  pub bounded : out.0 ≤ bound
  pub ended : Ended routing_key out.1 middle out.2

stops :
    {routing_key : String} {before log log' : List Effect} {n bound : ℕ} {e : Option Error}
    → Forwarded routing_key before n log
    → n ≤ bound
    → Ended routing_key e log log'
    → Reports routing_key bound before (n, e, log')
stops {log = log} f b e = record { middle = log; counted = f; bounded = b; ended = e }

module _ (routing_key : String) (before : List Effect) (bound requeued : ℕ) (i : Iteration)
    (next : List Effect → Requeued) (log : List Effect)
    (f : Forwarded routing_key before requeued log) (b : requeued ≤ bound)
    (goes_on : (log' : List Effect)
      → Forwarded routing_key before (suc requeued) log'
      → Reports routing_key bound before (next log')) where
  copy-Reports :
      (answer : Confirmation) (d : Delivery)
      → Reports routing_key bound before (
          after_copy routing_key i requeued next (
            publish_with_confirmation answer inventory_exchange routing_key
              (new_forwarded_delivery d (pos 0))
              (taken d ∷ log)))
  unfolding publish_with_confirmation
  copy-Reports refused d = elim (Bool-cases i.nacks) [
    | inl e ↦ rw e (stops f b (unsent _ d log))
    | inr e ↦ rw e (stops f b (unsent_and_held _ d log))
  ]
  copy-Reports acknowledged d = elim (Bool-cases i.acks) [
    | inl e ↦ rw e (goes_on _ (more d f))
    | inr e ↦ rw e (stops f b (unsettled _ d log))
  ]
  copy-Reports _ d = elim (Bool-cases i.nacks) [
    | inl e ↦ rw e (stops f b (unconfirmed _ d log))
    | inr e ↦ rw e (stops f b (unconfirmed_and_held _ d log))
  ]

  get-Reports :
      (got : Result Error (Option Delivery))
      → Reports routing_key bound before (after_get routing_key i requeued next got log)
  get-Reports (err e) = stops f b (idle _ log)
  get-Reports (ok none) = stops f b (idle _ log)
  get-Reports (ok (some d)) = copy-Reports i.answer d

  iterate-Reports :
      (ctx_err : CtxErr)
      → Reports routing_key bound before (iterate routing_key i requeued next ctx_err log)
  iterate-Reports (some e) = stops f b (idle _ log)
  iterate-Reports none = get-Reports i.got

loop-Reports :
    (left : ℕ) (routing_key : String) (iterations : ℕ → Iteration) (requeued bound : ℕ)
    (before log : List Effect)
    → Forwarded routing_key before requeued log
    → requeued + left ≤ bound
    → Reports routing_key bound before (requeue_loop left routing_key iterations requeued log)
unfolding requeue_loop
loop-Reports zero routing_key iterations requeued bound before log f b =
    stops f (omega arith) (idle _ log)
loop-Reports (suc left) routing_key iterations requeued bound before log f b =
    iterate-Reports routing_key before bound requeued (iterations requeued)
      (requeue_loop left routing_key iterations (suc requeued)) log f (omega arith)
      (λ log' f'.
        loop-Reports left routing_key iterations (suc requeued) bound before log' f' (omega arith))
      (iterations requeued).ctx_err

-- A call on a queue that exists reports a number within the limit, and 100 at most: as many
-- messages were taken, copied to the exchange and then acknowledged, one after the other. At most
-- one more was taken, and then the call returns an error: either a `Nack` that succeeds has given it
-- back to its queue, or its `Nack` or its `Ack` has failed.
pub requeue-Reports :
    (queue : DeadLetterQueue) (config : DeadLetterQueueConfig) (limit : ℤ)
    (iterations : ℕ → Iteration) (log : List Effect)
    → dead_letter_config queue ≡ ok config
    → Reports config.routing_key
        (min (pos_part limit) max_requeue_limit)
        log
        (requeue_dead_letters queue limit iterations log)
unfolding requeue_dead_letters
requeue-Reports queue config limit iterations log known =
    elim (Bool-cases (leb_ℤ limit (pos 0) || ltb_ℤ (pos max_requeue_limit) limit)) [
      | inl e ↦ rw (known, e) (stops start (omega arith) (idle _ log))
      | inr e ↦
          rw (known, e)
            (loop-Reports (pos_part limit) config.routing_key iterations 0
              (min (pos_part limit) max_requeue_limit) log log start (ground arith))
    ]
