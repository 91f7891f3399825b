-- ===== src/Scheduler/Lifetime.antt =====
-- The retry limit of internal/gocli/start_scheduler.go over a whole run of the coordinator.
use nana.Prelude.{◌≤◌, String, Option, some, List, ◌≡◌, ◌≢◌, ap, ◌∙◌, arith, lookup}
use nana.Scheduler.State.{
  ServiceTask, Coordinator, TaskResult, failure, task_at, service_task_retry_limit, Task, WorkState,
}
use nana.Scheduler.Outcome.{apply_task_result}
use nana.Scheduler.Attempts.{IsWellFormed}
use nana.Scheduler.Run.{Event, run_events, starts, run_events-starts}
use nana.Scheduler.Retry.{IsRetried, retry_status, failed-retry_status, found_task}

retry_status_used :
    (v : ServiceTask) → service_task_retry_limit v.kind ≤ v.attempts → retry_status v ≡ "failed"
retry_status_used v h = ground arith

-- After any sequence of events from a state whose service tasks are named by their keys, or unnamed,
-- in which a service task with a key that is not empty was started as often as its retry limit, its
-- next failure (other than a rate limit) is final, if it is stored under its own name, and for a
-- triage its issue too: also when every earlier start succeeded, in other cycles or for other
-- contents of the issue.
pub failed-starts :
    (es : List Event) (start : Coordinator) (write again : Option String) (now t : String)
    (result : TaskResult) (v : ServiceTask)
    → IsWellFormed start.state
    → Task.key result.task ≢ ""
    → result.error ≡ some (failure t)
    → lookup
        (Task.key result.task)
        (WorkState.service_tasks (Coordinator.state (run_events es start)))
      ≡ some v
    → v.id ≡ result.task.key
    → IsRetried result.task (Coordinator.state (run_events es start))
    → service_task_retry_limit v.kind ≤ starts result.task.key es
    → (task_at result.task.key (
        Coordinator.state
          (apply_task_result write again now result (run_events es start)).0)).status
      ≡ "failed"
failed-starts es start write again now t result v w n e l i r h =
    let end = run_events es start in
    let a : (task_at result.task.key end.state).attempts ≡ v.attempts =
      ap ServiceTask.attempts (found_task result.task.key v _ l) in
    let counted = run_events-starts es start result.task.key w n in
    failed-retry_status write again now t result v end e l i r
    ∙ retry_status_used v (omega (arith, a, counted, h))
