-- ===== src/Messaging/Topology.antt =====
-- `declareTopology` of internal/messaging/rabbitmq/consumer.go: the exchanges, queues and bindings
-- that the consumer declares. Whether the broker accepts a declaration is an argument. All exchanges
-- are durable topic exchanges and all queues durable ones.
pub mod Bindings
pub mod Routing
use stockflow_erp_mock.Common.{Bool, ◌&&◌, Option, none, some, String, List, [], ◌∷◌, if◌then◌else◌}
use stockflow_erp_mock.Common.Int.{ℤ, quot_int}
use stockflow_erp_mock.Inventory.Errors.{Error, other}
use stockflow_erp_mock.Messaging.Publisher.{
  inventory_exchange, retry_exchange, dead_letter_exchange,
}
use stockflow_erp_mock.Messaging.Consumer.{requested_routing_key, release_requested_routing_key}

abbrev pub requested_queue : String
requested_queue = "stockflow.erp-mock.inventory.reservation.requested.v1"

abbrev pub requested_retry_queue : String
requested_retry_queue = "stockflow.erp-mock.inventory.reservation.requested.v1.retry"

abbrev pub requested_dead_letter_queue : String
requested_dead_letter_queue = "stockflow.erp-mock.inventory.reservation.requested.v1.dlq"

abbrev pub release_requested_queue : String
release_requested_queue = "stockflow.erp-mock.inventory.reservation.release.requested.v1"

abbrev pub release_requested_retry_queue : String
release_requested_retry_queue =
    "stockflow.erp-mock.inventory.reservation.release.requested.v1.retry"

abbrev pub release_requested_dead_letter_queue : String
release_requested_dead_letter_queue =
    "stockflow.erp-mock.inventory.reservation.release.requested.v1.dlq"

-- The arguments of a queue: where the broker sends the messages that it drops, with which key, and
-- the milliseconds after which it drops one.
pub record QueueArguments : Type 0 where
  pub dead_letter_to : Option (String × String)
  pub message_ttl : Option ℤ

pub data Declaration : Type 0 where
  exchange_declare : (name : String) → Declaration
  queue_declare : (name : String) → QueueArguments → Declaration
  queue_bind : (name routing_key exchange : String) → Declaration
  qos : (prefetch_count : ℤ) → Declaration

-- The error, and what the broker has accepted, newest first.
abbrev pub Declared : Type 0
Declared = Option Error × List Declaration

module _ (accepts : Declaration → Bool) where
  -- One call of the channel after those before it, which returns the first error.
  unfoldable pub then_declare : Declared → Declaration → Declared
  then_declare (some e, declared) d = (some e, declared)
  then_declare (none, declared) d =
      if accepts d then (none, d ∷ declared) else (some (other "declare"), declared)

  -- `declareTopology` of publisher.go, over the names of its loop
  unfoldable pub declare_exchanges : List String → Declared → Declared
  unfolding then_declare
  declare_exchanges [] before = before
  declare_exchanges (name ∷ names) before =
      declare_exchanges names (then_declare before (exchange_declare name))

  -- `declareRequestTopology`
  unfoldable pub declare_request_topology :
      (queue retry_queue dead_letter_queue routing_key : String) (retry_delay : ℤ)
      → Declared
      → Declared
  unfolding then_declare
  declare_request_topology queue retry_queue dead_letter_queue routing_key retry_delay before =
      let declared = then_declare before (
        queue_declare queue (record {
          dead_letter_to = some (dead_letter_exchange, routing_key);
          message_ttl = none;
        })) in
      let bound = then_declare declared (queue_bind queue routing_key inventory_exchange) in
      let retried = then_declare bound (
        queue_declare retry_queue (record {
          dead_letter_to = some (inventory_exchange, routing_key);
          message_ttl = some (quot_int retry_delay 1000000);
        })) in
      let retry_bound = then_declare retried (queue_bind retry_queue routing_key retry_exchange) in
      let dead =
        then_declare retry_bound (
          queue_declare dead_letter_queue (record { dead_letter_to = none; message_ttl = none })) in
      then_declare dead (queue_bind dead_letter_queue routing_key dead_letter_exchange)

  -- `declareTopology`
  unfoldable pub declare_topology : (prefetch_count retry_delay : ℤ) → Declared
  unfolding declare_request_topology
  declare_topology prefetch_count retry_delay =
      let inventory = then_declare (none, []) (exchange_declare inventory_exchange) in
      let retry = then_declare inventory (exchange_declare retry_exchange) in
      let dead_letter = then_declare retry (exchange_declare dead_letter_exchange) in
      let requested =
        declare_request_topology requested_queue requested_retry_queue requested_dead_letter_queue
          requested_routing_key retry_delay dead_letter in
      let release_requested =
        declare_request_topology release_requested_queue release_requested_retry_queue
          release_requested_dead_letter_queue release_requested_routing_key retry_delay requested in
      then_declare release_requested (qos prefetch_count)
