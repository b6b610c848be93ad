-- ===== src/Ordering/Domain.antt =====
-- internal/ordering/domain: value objects, the order status and the order aggregate.
pub mod Values
pub mod Status
pub mod Order
