-- ===== src/Messaging/Topology/Bindings.antt =====
-- What a list of declarations says of the routing: the queues that are bound, and the arguments of a
-- queue.
use stockflow_erp_mock.Common.{◌&&◌, Option, none, some, String, List, [], ◌∷◌, if◌then◌else◌}
use package.text.Mathlib.Text.{◌==◌}
use stockflow_erp_mock.Messaging.Topology.{QueueArguments, Declaration, queue_declare, queue_bind}

-- The queues that an exchange is bound to with a key.
abbrev pub bound_queues : (exchange routing_key : String) → List Declaration → List String
bound_queues exchange routing_key [] = []
bound_queues exchange routing_key (queue_bind q k e ∷ ds) =
    let others = bound_queues exchange routing_key ds in
    if (e == exchange) && (k == routing_key) then q ∷ others else others
bound_queues exchange routing_key (_ ∷ ds) = bound_queues exchange routing_key ds

-- The arguments of the first queue of a name.
abbrev pub arguments_of : (queue : String) → List Declaration → Option QueueArguments
arguments_of queue [] = none
arguments_of queue (queue_declare q arguments ∷ ds) =
    let others = arguments_of queue ds in if q == queue then some arguments else others
arguments_of queue (_ ∷ ds) = arguments_of queue ds
