-- ===== src/Messaging/Admin.antt =====
-- internal/messaging/rabbitmq/admin.go: `RequeueDeadLetters`. What an iteration of its loop meets,
-- a message of the dead-letter queue or an error, is an argument.
pub mod Requeue
pub mod Complete
pub mod Depth
use stockflow_erp_mock.Common.{
  ℕ, zero, suc, Bool, true, false, ◌||◌, Option, none, some, String, List, ◌∷◌, Result, ok, err,
  if◌then◌else◌,
}
use stockflow_erp_mock.Common.Int.{ℤ, pos, pos_part, leb_ℤ, ltb_ℤ}
use stockflow_erp_mock.Inventory.Errors.{
  Error, wraps, other, invalid_dead_letter_queue, invalid_requeue_limit,
}
use stockflow_erp_mock.Memory.Repository.{CtxErr}
use stockflow_erp_mock.Messaging.Amqp.{Delivery}
use stockflow_erp_mock.Messaging.Publisher.{
  Effect, acked, nacked, taken, settle_failed, Sent, Confirmation, publish_with_confirmation,
  inventory_exchange, new_forwarded_delivery,
}
use stockflow_erp_mock.Messaging.Consumer.{requested_routing_key, release_requested_routing_key}

-- internal/app/dead_letter.go
pub data DeadLetterQueue : Type 0 where
  reservation_requests reservation_release_requests : DeadLetterQueue
  unsupported : String → DeadLetterQueue

pub record DeadLetterQueueConfig : Type 0 where
  pub name : String
  pub routing_key : String

abbrev pub max_requeue_limit : ℕ
max_requeue_limit = 100

unfoldable pub dead_letter_config : DeadLetterQueue → Result Error DeadLetterQueueConfig
dead_letter_config reservation_requests = ok (record {
  name = "stockflow.erp-mock.inventory.reservation.requested.v1.dlq";
  routing_key = requested_routing_key;
})
dead_letter_config reservation_release_requests = ok (record {
  name = "stockflow.erp-mock.inventory.reservation.release.requested.v1.dlq";
  routing_key = release_requested_routing_key;
})
dead_letter_config (unsupported _) = err (wraps invalid_dead_letter_queue)

-- An iteration: `ctx.Err()`, what `Get` returns, the answer of the broker to the copy, and whether
-- `Ack` and `Nack` succeed.
pub record Iteration : Type 0 where
  pub ctx_err : CtxErr
  pub got : Result Error (Option Delivery)
  pub answer : Confirmation
  pub acks : Bool
  pub nacks : Bool

-- The count and the `error` that are returned, and the log.
abbrev pub Requeued : Type 0
Requeued = ℕ × Option Error × List Effect

module _ (routing_key : String) (i : Iteration) (requeued : ℕ) (next : List Effect → Requeued) where
  -- The copy was confirmed, or its message is to go back to the queue. An error of `Nack` is added to
  -- the text of the error that is returned, which wraps the same one.
  abbrev pub after_copy : Sent → Requeued
  after_copy (some e, log) =
      if i.nacks
      then (requeued, some e, nacked true ∷ log)
      else (requeued, some e, settle_failed ∷ nacked true ∷ log)
  after_copy (none, log) =
      if i.acks
      then next (acked ∷ log)
      else (requeued, some (other "ack message"), settle_failed ∷ acked ∷ log)

  abbrev pub after_get : Result Error (Option Delivery) → List Effect → Requeued
  after_get (err e) log = (requeued, some e, log)
  after_get (ok none) log = (requeued, none, log)
  after_get (ok (some delivery)) log = after_copy (
      publish_with_confirmation i.answer inventory_exchange routing_key
        (new_forwarded_delivery delivery (pos 0)) (taken delivery ∷ log))

  abbrev pub iterate : CtxErr → List Effect → Requeued
  iterate (some e) log = (requeued, some (wraps e), log)
  iterate none log = after_get i.got log

-- The loop, with `left` iterations before the limit.
unfoldable pub requeue_loop :
    (left : ℕ) → String → (ℕ → Iteration) → (requeued : ℕ) → List Effect → Requeued
requeue_loop zero routing_key iterations requeued log = (requeued, none, log)
requeue_loop (suc left) routing_key iterations requeued log =
    iterate routing_key (iterations requeued) requeued
      (requeue_loop left routing_key iterations (suc requeued)) (iterations requeued).ctx_err log

requeue_from :
    Result Error DeadLetterQueueConfig → (limit : ℤ) → (ℕ → Iteration) → List Effect → Requeued
unfolding requeue_loop
requeue_from (err e) limit iterations log = (0, some e, log)
requeue_from (ok config) limit iterations log =
    if leb_ℤ limit (pos 0) || ltb_ℤ (pos max_requeue_limit) limit
    then (0, some (wraps invalid_requeue_limit), log)
    else requeue_loop (pos_part limit) config.routing_key iterations 0 log

-- `RequeueDeadLetters`
unfoldable pub requeue_dead_letters :
    DeadLetterQueue → (limit : ℤ) → (ℕ → Iteration) → List Effect → Requeued
unfolding dead_letter_config requeue_from
requeue_dead_letters queue limit iterations log =
    requeue_from (dead_letter_config queue) limit iterations log
