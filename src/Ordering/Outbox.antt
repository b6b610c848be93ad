-- ===== src/Ordering/Outbox.antt =====
-- internal/ordering/outbox: the worker that publishes what the Ordering service recorded.
pub mod Lsn
pub mod Errors
pub mod Reader
pub mod Stores
pub mod Processor
pub mod Worker
