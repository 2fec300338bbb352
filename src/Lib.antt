-- ===== src/Lib.antt =====
-- The stock reservation service: a consumer reads reservation and release requests from RabbitMQ,
-- handlers answer them over an in-memory repository, and a publisher sends the answers back.
--
-- Parts, and the files that model them:
-- - Inventory: internal/domain/inventory. Model holds `StockItem` and `Reservation` with their
--   `validate` methods, Errors the error values and `errors.Is`, Service `Service.Reserve` and
--   `Service.Release`. A pointer that may be nil is an `Option`. Laws is about Service.
-- - Memory/Repository: internal/storage/memory/inventory_repository.go. The two maps are
--   dictionaries, and a method that changes them returns the new repository beside its result.
--   Every method holds the lock, so it is one step. `Invariant` says when a repository is valid.
--   Listing holds `ListStock` and `ListReservations`.
-- - Memory/Idempotency: internal/storage/memory/idempotency_store.go, `Execute` for callers one at
--   a time, over an operation on any state. Concurrent: the same method for callers on several
--   goroutines, as a step relation whose steps are the parts between two uses of the lock.
-- - App/Reservation, App/Release: internal/app/inventory_reservation.go and
--   inventory_reservation_release.go, the handlers as steps on a pair of a store and the
--   repository. App/Context says which answers of `ctx.Err()` and which time a call meets.
-- - App/FailureMode, App/FailureSimulation: internal/app/failure_mode.go and
--   failure_simulation.go, the settings and the handlers that wrap the others.
-- - Messaging/Decode: reservation_requested.go and reservation_release_requested.go of
--   internal/messaging/rabbitmq. Messaging/Publisher: publisher.go and
--   failure_simulation_publisher.go there, with Confirmations for the channel that all its messages
--   share. Messaging/Consumer: what consumer.go there does with one
--   delivery, with Requests for `handleDelivery` and Releases for `handleReleaseDelivery`.
--   Messaging/Consumer/Loop: the loop of `Consume`, over what its `select` chooses.
--   Messaging/Topology: the exchanges, queues and bindings that consumer.go declares.
--   Messaging/Admin: `RequeueDeadLetters` and `DLQDepth` of admin.go there.
-- - Http: internal/http/server.go, the handlers as functions of the server, which is the repository,
--   the failure modes and the flag of readiness.
-- - Config: internal/config/config.go. Observability: `Collect` of internal/observability/metrics.go,
--   with Counters for the counters after the calls of the consumer.
-- - Process: `run` of cmd/erp-mock/main.go, with what each client and the server return as arguments.
-- - Messaging/Consumer/Run: the state that cmd/erp-mock/main.go builds for the consumer, and the
--   worlds that a run reaches from it, delivery by delivery.
-- - Common: the helpers that the parts share. Tests: runs on concrete values.
--
-- How the parts interact: the consumer decodes a delivery, calls the simulated handler, which calls
-- the handler through an idempotency store of its own; that handler calls the repository through
-- its store, and the repository the inventory service. The consumer then publishes the answer, and
-- acknowledges, rejects, retries or dead-letters the delivery. The two handlers share the
-- repository and nothing else.
--
-- Numbers: a Go `int` is the ℤ of Common/Int, whose additions wrap at 64 bits; a forwarded retry
-- count is cut to 32 bits. A Go string is the list of its code points, so text that is not UTF-8 is
-- outside the model. Times are numbers of nanoseconds. No function uses fuel: the loops run over
-- lists, and that of `RequeueDeadLetters` over what is left of its limit.
--
-- Parameters: `Codec` stands for encoding/json and time.Parse in the messages, `RequestCodec` for
-- encoding/json in the requests, `Parsers` for the parsers of the configuration, and `Getenv` for the
-- environment; nothing is assumed of them. The answers of the broker, of the context, of `select`, of
-- the random generators and the order of a `range` over a map are arguments of the calls. What is
-- taken from a dead-letter queue, sent, acknowledged and rejected is a log. `IsTopic` and
-- `Redelivers` are what RabbitMQ documents of topic exchanges without wildcards and of the headers
-- that it adds to a message which a queue has dropped.
--
-- Not modelled: `NewConsumer`, `NewPublisher`, `NewAdmin` and the `Close` methods, which only call the
-- AMQP client; `ListenAndServe`, `Shutdown` and the route of the metrics, which only call net/http and
-- the Prometheus client; logging, tracing, durations and the text of errors. An operation of the
-- idempotency store that panics is outside the model.
pub mod Common
pub mod Inventory
pub mod Memory
pub mod App
pub mod Messaging
pub mod Http
pub mod Config
pub mod Observability
pub mod Process
pub mod Tests
