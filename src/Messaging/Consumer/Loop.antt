-- ===== src/Messaging/Consumer/Loop.antt =====
-- `Consume` of internal/messaging/rabbitmq/consumer.go: the loop over the two channels of deliveries
-- and the context. What the `select` chooses is an argument, one choice for each turn of the loop.
pub mod Returns
pub mod Serving
pub mod Service
use stockflow_erp_mock.Common.{Bool, true, false, Option, none, some, List, [], ◌∷◌, if◌then◌else◌}
use stockflow_erp_mock.Common.Int.{ℤ}
use stockflow_erp_mock.Inventory.Errors.{Error, other}
use stockflow_erp_mock.Messaging.Amqp.{Delivery, Codec}
use stockflow_erp_mock.Messaging.Consumer.{World, Environment}
use stockflow_erp_mock.Messaging.Consumer.Requests.{handle_delivery}
use stockflow_erp_mock.Messaging.Consumer.Releases.{handle_release_delivery}

-- What `Cancel` of a channel returns. `was_closed` is `amqp.ErrClosed`.
pub data Cancelled : Type 0 where
  done was_closed failed : Cancelled

-- The cases of the `select`. A delivery comes with what it meets, a closed channel with whether
-- the context has an error.
pub data Choice : Type 0 where
  context_done : (request_consumer release_consumer : Cancelled) → Choice
  request release : Environment → Delivery → Choice
  requests_closed releases_closed : (context_err : Bool) → Choice

-- What the loop has done: it still runs, or it has returned.
pub data Outcome : Type 0 where
  running : Outcome
  returned : Option Error → Outcome

cancel_release_consumer : Cancelled → Option Error
cancel_release_consumer failed = some (other "cancel reservation release requested consumer")
cancel_release_consumer _ = none

unfoldable pub cancel_consumers : Cancelled → Cancelled → Option Error
unfolding cancel_release_consumer
cancel_consumers failed release_consumer = some (other "cancel reservation requested consumer")
cancel_consumers _ release_consumer = cancel_release_consumer release_consumer

-- After a delivery, the loop goes on or returns the error.
abbrev pub after_delivery : (World → Outcome × World) → Option Error × World → Outcome × World
after_delivery loop (some e, w) = (returned (some e), w)
after_delivery loop (none, w) = loop w

module _ (codec : Codec) (max_retry_count : ℤ) where
  unfoldable pub consume_loop : List Choice → World → Outcome × World
  unfolding cancel_consumers
  consume_loop [] w = (running, w)
  consume_loop (context_done a b ∷ choices) w = (returned (cancel_consumers a b), w)
  consume_loop (request env delivery ∷ choices) w =
      after_delivery (consume_loop choices) (handle_delivery codec max_retry_count env delivery w)
  consume_loop (requests_closed context_err ∷ choices) w =
      (returned (if context_err then none else some (other "deliveries channel closed")), w)
  consume_loop (release env delivery ∷ choices) w =
      after_delivery (consume_loop choices)
        (handle_release_delivery codec max_retry_count env delivery w)
  consume_loop (releases_closed context_err ∷ choices) w =
      (returned (if context_err then none else some (other "release deliveries channel closed")), w)

  -- `Consume`: the two consumers are started, or one of them is refused.
  unfoldable pub consume :
      (requests_start releases_start : Bool) → List Choice → World → Outcome × World
  unfolding consume_loop
  consume false releases_start choices w =
      (returned (some (other "start reservation requested consumer")), w)
  consume true false choices w =
      (returned (some (other "start reservation release requested consumer")), w)
  consume true true choices w = consume_loop choices w
