-- ===== src/Workflow.antt =====
-- The package src/workflow.
pub mod Approval
pub mod Engine
