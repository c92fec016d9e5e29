-- ===== src/Recovery.antt =====
-- src/recovery: the circuit breaker, retries, fallbacks and escalation.
pub mod CircuitBreaker
pub mod Escalation
pub mod Fallback
pub mod Retry
