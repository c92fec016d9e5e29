-- ===== src/Orchestrator.antt =====
-- The package src/orchestrator.
pub mod State
pub mod Bus
