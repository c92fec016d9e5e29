-- ===== src/Api.antt =====
-- src/api: what stands between a request and its handler.
pub mod RateLimit
