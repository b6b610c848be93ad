-- ===== src/Basket.antt =====
-- The Basket service (internal/basket).
pub mod Carts
pub mod Checkout
pub mod Cache
pub mod Relay
