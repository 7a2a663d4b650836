-- ===== src/Concurrency.antt =====
-- internal/engine/concurrency.go: the semaphores, the priority queue of waiting executions and the
-- service that admits executions under a global limit and a limit for each workflow.
pub mod Semaphore
pub mod Queue
pub mod Service
pub mod Calls
pub mod Admission
pub mod Dispatch
pub mod Order
pub mod Removal
pub mod Permits
pub mod Invariant
pub mod System
pub mod Wakeup
pub mod Safety
pub mod Limits
mod Examples
