-- ===== src/Ordering.antt =====
-- The Ordering service (internal/ordering).
pub mod Domain
pub mod Integration
pub mod Rows
pub mod Tables
pub mod Repository
pub mod Outbox
pub mod Orders
