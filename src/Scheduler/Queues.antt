-- ===== src/Scheduler/Queues.antt =====
-- internal/gocli/start_scheduler.go: nextTask, with the queues that it builds for the tasks of a repository.
pub mod Identifiers
pub mod Recovery
pub mod Offers
pub mod Implementation
mod Members
mod Again
mod Sound
mod Tests
use nana.Prelude.{ℕ, String, Option, List}
use nana.Queue.Order.{Options}
use nana.Scheduler.State.{Coordinator}
use nana.Scheduler.Select.{Selection, select_next_task}
use nana.Scheduler.Queues.Offers.{Listed, build_service_queue}
use nana.Scheduler.Queues.Implementation.{build_implementation_tasks}

-- nextTask, behind the read of the state: each queue is built from its own answer of the database.
unfoldable pub next_queued_task :
    Options
    → ℕ
    → (String → Option ℕ)
    → ℕ
    → Option (List Listed)
    → Option (List Listed)
    → Coordinator
    → Selection
next_queued_task options open_prs parse_time now first second c =
    select_next_task (build_service_queue parse_time now first c)
      (build_implementation_tasks options open_prs parse_time now second c) c
