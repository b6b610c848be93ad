-- ===== src/Ordering/Orders.antt =====
-- The use cases of the Ordering service (internal/ordering/orders).
pub mod Checkout
pub mod Consumer
pub mod Views
pub mod Handlers
