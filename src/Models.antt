-- ===== src/Models.antt =====
-- src/models: the graph of tasks that a plan is.
pub mod Dag
