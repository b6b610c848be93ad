-- ===== src/Gateway.antt =====
-- The gateway in front of the services (internal/gateway).
pub mod Ratelimit
