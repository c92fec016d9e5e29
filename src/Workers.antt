-- ===== src/Workers.antt =====
-- The package src/workers.
pub mod Pool
