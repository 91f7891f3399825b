-- ===== src/Scheduler.antt =====
-- internal/gocli/start_scheduler.go.
pub mod State
pub mod Select
pub mod Begin
pub mod Failure
pub mod Triage
pub mod Reconcile
pub mod Launch
pub mod Outcome
pub mod Service
pub mod Slots
pub mod Workers
mod Stored
mod Attempts
mod Writes
mod Kept
mod Run
mod Retry
mod Lifetime
mod Exhausted
mod Turns
mod Rounds
mod Pause
pub mod Sync
pub mod Queues
mod Tests
