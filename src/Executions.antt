-- ===== src/Executions.antt =====
-- internal/engine/active_executions.go and modes.go: the registry of the executions that run, over the
-- concurrency control service.
pub mod Modes
pub mod Registry
pub mod Consistency
pub mod Invariant
mod Examples
