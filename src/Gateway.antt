-- ===== src/Gateway.antt =====
-- The package src/gateway.
pub mod ApiKeys
