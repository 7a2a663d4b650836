-- ===== src/Engine.antt =====
-- internal/engine: how one execution of a workflow runs.
pub mod Failure
pub mod Retry
pub mod Evaluator
pub mod Delivery
pub mod Run
pub mod Loop
pub mod Routing
pub mod Rounds
pub mod Termination
pub mod Start
pub mod Safety
pub mod Tries
pub mod Inputs
mod Examples
