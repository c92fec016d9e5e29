-- ===== src/Tools.antt =====
-- The package src/tools.
pub mod RateLimiter
pub mod ToolCache
