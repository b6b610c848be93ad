-- ===== src/Payment.antt =====
-- The Payment service (internal/payment).
pub mod Cards
