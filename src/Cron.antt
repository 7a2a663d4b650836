-- ===== src/Cron.antt =====
-- internal/cron: schedules, jobs, the scheduler and the choice of a leader.
pub mod Schedule
mod Bits
pub mod Text
pub mod Fields
pub mod Masks
pub mod Wrapping
pub mod Overflow
pub mod Parts
pub mod Listed
pub mod Spans
pub mod Loops
pub mod Limits
pub mod Values
pub mod Ranges
pub mod Parse
pub mod Valid
pub mod Next
pub mod Search
pub mod Leader
pub mod Lease
pub mod Job
pub mod Runs
pub mod Scheduler
pub mod Wakeups
pub mod Calls
pub mod Fits
pub mod Sound
mod Examples
