-- ===== src/Queue.antt =====
-- internal/gocli/start_work.go: the priorities of issues and the implementation queue.
pub mod Priority
pub mod Order
pub mod Wanted
mod Sorted
mod Labels
mod Tests
