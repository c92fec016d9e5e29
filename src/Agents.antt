-- ===== src/Agents.antt =====
-- src/agents: the agents that plan and verify.
pub mod DagValidator
