-- ===== src/Scheduler.antt =====
-- src/scheduler: quotas, budgets and the lifecycle of executions.
pub mod Budget
pub mod Lifecycle
pub mod Quota
