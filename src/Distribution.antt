-- ===== src/Distribution.antt =====
-- internal/engine/distribution: jobs, the distributor that keeps them in memory, and the worker pool.
pub mod Job
pub mod Local
pub mod Results
pub mod Delivery
pub mod Racing
pub mod Counts
pub mod Stale
pub mod Ledger
pub mod Jobs
pub mod View
pub mod Refinement
pub mod Pool
pub mod Workers
mod Examples
