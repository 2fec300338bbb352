-- ===== src/Messaging/Topology/Routing.antt =====
-- Where the declared topology takes the messages: to the inbound queues, around through the retry
-- queues, and to the dead-letter queues that the administration empties.
use stockflow_erp_mock.Common.{
  ◌≡◌, refl, sym, ap, ◌∙◌, Bool, true, ◌&&◌, not, none, some, String, List, [], ◌∷◌, ok, ◌==◌,
  arith,
}
use stockflow_erp_mock.Common.Int.{ℤ, quot_int}
use stockflow_erp_mock.Common.Text.{Text, text}
use stockflow_erp_mock.Messaging.Publisher.{
  inventory_exchange, retry_exchange, dead_letter_exchange,
}
use stockflow_erp_mock.Messaging.Consumer.{requested_routing_key, release_requested_routing_key}
use stockflow_erp_mock.Messaging.Admin.{
  DeadLetterQueue, reservation_requests, reservation_release_requests, dead_letter_config,
}
use stockflow_erp_mock.Messaging.Topology.{
  Declaration, exchange_declare, queue_declare, queue_bind, qos, Declared, then_declare,
  declare_exchanges, declare_request_topology, declare_topology, requested_queue,
  requested_retry_queue, requested_dead_letter_queue, release_requested_queue,
  release_requested_retry_queue, release_requested_dead_letter_queue,
}
use stockflow_erp_mock.Messaging.Topology.Bindings.{bound_queues, arguments_of}

-- `*` and `#` are the wildcards of a topic exchange.
abbrev pub is_plain : Text → Bool
is_plain [] = true
is_plain (c ∷ cs) = not (c == 42) && (not (c == 35) && is_plain cs)

abbrev pub all_plain : List Declaration → Bool
all_plain [] = true
all_plain (queue_bind q k e ∷ ds) = is_plain (text k) && all_plain ds
all_plain (_ ∷ ds) = all_plain ds

-- The two kinds of inbound messages, and the names that belong to each.
pub data Flow : Type 0 where
  reservations releases : Flow

abbrev pub queue_of : Flow → String
queue_of reservations = requested_queue
queue_of releases = release_requested_queue

abbrev pub retry_queue_of : Flow → String
retry_queue_of reservations = requested_retry_queue
retry_queue_of releases = release_requested_retry_queue

abbrev pub dead_letter_queue_of : Flow → String
dead_letter_queue_of reservations = requested_dead_letter_queue
dead_letter_queue_of releases = release_requested_dead_letter_queue

abbrev pub key_of : Flow → String
key_of reservations = requested_routing_key
key_of releases = release_requested_routing_key

abbrev pub admin_queue_of : Flow → DeadLetterQueue
admin_queue_of reservations = reservation_requests
admin_queue_of releases = reservation_release_requests

-- `route declared exchange key` are the queues that a message reaches. Where no binding has a
-- wildcard and one queue is bound to the exchange with the key, it reaches this queue alone.
abbrev pub Route : Type 0
Route = List Declaration → (exchange routing_key : String) → List String

abbrev pub IsTopic : Route → Type 0
IsTopic route =
    (declared : List Declaration) (exchange routing_key queue : String)
    → all_plain declared ≡ true
    → bound_queues exchange routing_key declared ≡ queue ∷ []
    → route declared exchange routing_key ≡ queue ∷ []

-- The circle of a message: in through the inbound queue; from the retry exchange to the retry queue,
-- and after the delay back to the inbound exchange; from the dead-letter exchange, which also takes
-- what the inbound queue rejects, to the queue that the administration knows.
pub record IsCircle (route : Route) (declared : List Declaration) (retry_delay : ℤ) (f : Flow)
    : Type 0 where
  pub inbound : route declared inventory_exchange (key_of f) ≡ queue_of f ∷ []
  pub retried : route declared retry_exchange (key_of f) ≡ retry_queue_of f ∷ []
  pub buried : route declared dead_letter_exchange (key_of f) ≡ dead_letter_queue_of f ∷ []
  pub rejects :
      arguments_of (queue_of f) declared
      ≡ some (record { dead_letter_to = some (dead_letter_exchange, key_of f); message_ttl = none })
  pub comes_back :
      arguments_of (retry_queue_of f) declared
      ≡ some (record {
        dead_letter_to = some (inventory_exchange, key_of f);
        message_ttl = some (quot_int retry_delay 1000000);
      })
  pub administered :
      dead_letter_config (admin_queue_of f)
      ≡ ok (record { name = dead_letter_queue_of f; routing_key = key_of f })

onto : List Declaration → List Declaration → List Declaration
onto declared [] = declared
onto declared (d ∷ ds) = onto (d ∷ declared) ds

pair-eq {ℓ κ} : {A : Type ℓ} {B : Type κ} {p : A × B} {a : A} → p.0 ≡ a → p ≡ (a, p.1)
pair-eq {p = (x, y)} e = rw e refl

module _ (accepts : Declaration → Bool) where
  then_declare-none :
      (before : Declared) (d : Declaration) {declared : List Declaration}
      → then_declare accepts before d ≡ (none, declared)
      → (before.0 ≡ none) × (declared ≡ d ∷ before.1)
  unfolding then_declare
  then_declare-none (some e, ds) d h = ground (arith, h)
  then_declare-none (none, ds) d h = (refl, ground (arith, h))

  declare_all : Declared → List Declaration → Declared
  declare_all before [] = before
  declare_all before (d ∷ ds) = declare_all (then_declare accepts before d) ds

  declare_all-none :
      (before : Declared) (ds : List Declaration) {declared : List Declaration}
      → declare_all before ds ≡ (none, declared)
      → (before.0 ≡ none) × (declared ≡ onto before.1 ds)
  unfolding declare_all onto
  declare_all-none before [] h = (ap (λ x. x.0) h, sym (ap (λ x. x.1) h))
  declare_all-none before (d ∷ ds) h =
      let (e, f) = declare_all-none (then_declare accepts before d) ds h in
      let both : then_declare accepts before d ≡ (none, (then_declare accepts before d).1) =
        pair-eq e in
      let (g, k) = then_declare-none before d both in (g, f ∙ ap (λ l. onto l ds) k)

abbrev request_declarations :
    (queue retry_queue dead_letter_queue routing_key : String)
    → ℤ
    → List Declaration
    → List Declaration
request_declarations queue retry_queue dead_letter_queue routing_key retry_delay more =
    queue_declare queue
      (record { dead_letter_to = some (dead_letter_exchange, routing_key); message_ttl = none })
    ∷ queue_bind queue routing_key inventory_exchange
    ∷ queue_declare retry_queue (record {
      dead_letter_to = some (inventory_exchange, routing_key);
      message_ttl = some (quot_int retry_delay 1000000);
    })
    ∷ queue_bind retry_queue routing_key retry_exchange
    ∷ queue_declare dead_letter_queue (record { dead_letter_to = none; message_ttl = none })
    ∷ queue_bind dead_letter_queue routing_key dead_letter_exchange
    ∷ more

-- What the consumer declares after the exchanges.
abbrev later_declarations : (prefetch_count retry_delay : ℤ) → List Declaration
later_declarations prefetch_count retry_delay =
    request_declarations requested_queue requested_retry_queue requested_dead_letter_queue
      requested_routing_key retry_delay
      (request_declarations release_requested_queue release_requested_retry_queue
        release_requested_dead_letter_queue release_requested_routing_key retry_delay
        (qos prefetch_count ∷ []))

abbrev declarations : (prefetch_count retry_delay : ℤ) → List Declaration
declarations prefetch_count retry_delay =
    exchange_declare inventory_exchange
    ∷ exchange_declare retry_exchange
    ∷ exchange_declare dead_letter_exchange
    ∷ later_declarations prefetch_count retry_delay

declare_topology-eq :
    (accepts : Declaration → Bool) (prefetch_count retry_delay : ℤ)
    → declare_topology accepts prefetch_count retry_delay
      ≡ declare_all accepts (none, []) (declarations prefetch_count retry_delay)
unfolding declare_topology declare_request_topology declare_all
declare_topology-eq accepts prefetch_count retry_delay = refl

circle :
    (route : Route) (prefetch_count retry_delay : ℤ) (f : Flow)
    → IsTopic route
    → IsCircle route (onto [] (declarations prefetch_count retry_delay)) retry_delay f
unfolding onto dead_letter_config
circle route prefetch_count retry_delay reservations topic = record {
  inbound = topic _ _ _ _ refl refl;
  retried = topic _ _ _ _ refl refl;
  buried = topic _ _ _ _ refl refl;
  rejects = refl;
  comes_back = refl;
  administered = refl;
}
circle route prefetch_count retry_delay releases topic = record {
  inbound = topic _ _ _ _ refl refl;
  retried = topic _ _ _ _ refl refl;
  buried = topic _ _ _ _ refl refl;
  rejects = refl;
  comes_back = refl;
  administered = refl;
}

-- Where the broker accepts all declarations and takes a message to the one queue that is bound to a
-- topic exchange with its key, each kind of inbound message reaches its inbound queue, from the retry
-- exchange its retry queue, which sends it back to the inbound exchange after the delay in
-- milliseconds, and from the dead-letter exchange, to which the inbound queue sends what it rejects,
-- the queue that the administration empties.
pub declare_topology-IsCircle :
    (route : Route) (accepts : Declaration → Bool) (prefetch_count retry_delay : ℤ)
    (declared : List Declaration) (f : Flow)
    → IsTopic route
    → declare_topology accepts prefetch_count retry_delay ≡ (none, declared)
    → IsCircle route declared retry_delay f
declare_topology-IsCircle route accepts prefetch_count retry_delay declared f topic h =
    let (_, e) =
      declare_all-none accepts (none, []) (declarations prefetch_count retry_delay)
        (sym (declare_topology-eq accepts prefetch_count retry_delay) ∙ h) in
    rw e (circle route prefetch_count retry_delay f topic)

-- Where the broker accepts what the consumer declares, it accepts the exchanges that the publisher
-- declares.
pub declare_exchanges-none :
    (accepts : Declaration → Bool) (prefetch_count retry_delay : ℤ) (declared : List Declaration)
    → declare_topology accepts prefetch_count retry_delay ≡ (none, declared)
    → (declare_exchanges accepts
        (inventory_exchange ∷ retry_exchange ∷ dead_letter_exchange ∷ [])
        (none, [])).0
      ≡ none
unfolding declare_exchanges declare_all
declare_exchanges-none accepts prefetch_count retry_delay declared h =
    let before =
      declare_exchanges accepts (inventory_exchange ∷ retry_exchange ∷ dead_letter_exchange ∷ [])
        (none, []) in
    (declare_all-none accepts before (later_declarations prefetch_count retry_delay)
      (sym (declare_topology-eq accepts prefetch_count retry_delay) ∙ h)).0
