-- ===== src/Runtime.antt =====
-- cmd/nana-runtime: the runtime engine, its event log and its state directory.
pub mod State
pub mod Lease
pub mod Dispatch
pub mod Mailbox
pub mod Command
pub mod Replay
pub mod Snapshot
pub mod Files
pub mod Append
pub mod Atomic
pub mod Holding
pub mod Lifecycle
pub mod Rebuild
pub mod Durable
pub mod Counts
pub mod Readiness
pub mod Requeue
mod Position
mod Tests
