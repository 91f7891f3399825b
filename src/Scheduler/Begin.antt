-- ===== src/Scheduler/Begin.antt =====
-- internal/gocli/start_scheduler.go: markTaskStarted, under the lock of the state.
use nana.Prelude.{◌+◌, String, Option, none, [], ◌∷◌}
use mathlib.Core.List.{◌++◌}
use nana.Scheduler.State.{
  TaskKind, implementation, scout_job, planned_launch, Task, Coordinator, StepError, written,
  issue_at, task_at, item_at, job_at, put_issue, put_task, put_item, put_job, IssueState,
  ServiceTask, PlannedItem, ScoutJob,
}

abbrev begun_issue : String → IssueState → IssueState
begun_issue now issue = record issue {
  status = "in_progress";
  blocked_reason = "";
  last_run_error = "";
  schedule_at = "";
  deferred_reason = "";
  last_run_updated_at = now;
  updated_at = now;
}

abbrev begun_job : String → ScoutJob → ScoutJob
begun_job now job = record job {
  status = "running";
  last_error = "";
  pause_until = "";
  pause_reason = "";
  updated_at = now;
  attempts = job.attempts + 1;
}

abbrev begun_item : String → PlannedItem → PlannedItem
begun_item now item = record item {
  state = "launching";
  last_error = "";
  schedule_at = "";
  deferred_reason = "";
  updated_at = now;
}

abbrev begun_task : String → ServiceTask → ServiceTask
begun_task now task = record task {
  status = "running";
  attempts = task.attempts + 1;
  started_at = now;
  updated_at = now;
  last_error = "";
  wait_cycle = "";
  wait_until = "";
}

-- The switch of markTaskStarted.
unfoldable pub begin : TaskKind → String → Task → Coordinator → Coordinator
unfolding put_issue put_task put_item put_job
begin implementation now task c =
    let issue = begun_issue now (issue_at task.issue_key c.state) in
    let stored = put_issue task.issue_key issue c in
    record stored {
      started_issue_numbers = stored.started_issue_numbers ++ issue.source_number ∷ [];
      impl_started_count = stored.impl_started_count + 1;
    }
begin scout_job now task c =
    let stored = put_job task.scout_job_id (begun_job now (job_at task.scout_job_id c.state)) c in
    record stored { impl_started_count = stored.impl_started_count + 1 }
begin planned_launch now task c =
    let stored =
      put_item task.planned_item_id (begun_item now (item_at task.planned_item_id c.state)) c in
    record stored { service_started_count = stored.service_started_count + 1 }
begin _ now task c =
    let stored = put_task task.key (begun_task now (task_at task.key c.state)) c in
    record stored { service_started_count = stored.service_started_count + 1 }

unfoldable pub mark_task_started :
    Option String → String → Task → Coordinator → Coordinator × Option StepError
unfolding begin written
mark_task_started write now task c = written write (begin task.kind now task c) none
