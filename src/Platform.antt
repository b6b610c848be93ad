-- ===== src/Platform.antt =====
-- What the services share (internal/platform) and the external types they are written against.
pub mod Decimal
pub mod Messaging
pub mod Orderingv2
pub mod Pagination
pub mod Rabbitmq
pub mod Kafka
pub mod Backoff
pub mod Basketv1
pub mod Inbox
