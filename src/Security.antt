-- ===== src/Security.antt =====
-- src/security: who may do what.
pub mod Abac
pub mod Rbac
