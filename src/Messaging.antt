-- ===== src/Messaging.antt =====
-- internal/messaging/rabbitmq: decoding of deliveries, the messages that are published, the
-- consumer's treatment of a delivery, and the administration of dead letters.
pub mod Amqp
pub mod Decode
pub mod Publisher
pub mod Consumer
pub mod Admin
pub mod Topology
