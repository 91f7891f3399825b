-- ===== src/Scheduler/Outcome.antt =====
-- internal/gocli/start_scheduler.go: applyTaskResult, under the lock of the state. `write` and
-- `again` are what the first and the second write of the state file in one call return.
use nana.Prelude.{String, true, Option, none, some, trim_space}
use nana.Scheduler.State.{
  TaskKind, issue_sync, scout, triage, implementation, scout_job, reconcile, planned_launch, other,
  start_service_task_key, IssueState, ServiceTask, ScoutJob, Task, Coordinator, TaskError, paused,
  failure, PauseInfo, TaskResult, StepError, unknown_kind, task_failed, written, put_task,
  put_issue, put_job, task_at, issue_at, job_at, codex_pause_info_message, default_string,
}
use nana.Scheduler.Failure.{handle_service_task_failure}
use nana.Scheduler.Triage.{apply_start_work_triage_result}
use nana.Scheduler.Reconcile.{apply_reconcile}
use nana.Scheduler.Launch.{apply_planned_launch, queued_job, failed_job, trimmed_or}

abbrev pub launched_issue : Option String → IssueState → IssueState
launched_issue none issue = issue
launched_issue (some run_id) issue = record issue { last_run_id = trim_space run_id }

abbrev paused_issue : String → PauseInfo → IssueState → IssueState
paused_issue now info issue = record issue {
  status = "queued";
  blocked_reason = "";
  last_run_error = codex_pause_info_message info;
  deferred_reason = default_string (trim_space info.reason) "rate limited";
  schedule_at = trim_space info.retry_after;
  schedule_updated_at = now;
  last_run_updated_at = now;
  updated_at = now;
}

abbrev finished_issue : String → String → IssueState → IssueState
finished_issue now error issue = record issue {
  last_run_updated_at = now;
  last_run_error = error;
  status = "reconciling";
  updated_at = now;
}

abbrev reconcile_task : String → String → IssueState → ServiceTask → ServiceTask
reconcile_task now issue_key issue task = record task {
  id = start_service_task_key reconcile issue_key;
  kind = reconcile;
  queue = "service";
  status = "queued";
  issue_key = issue_key;
  fingerprint = issue.source_fingerprint;
  run_id = issue.last_run_id;
  wait_cycle = "";
  wait_until = "";
  updated_at = now;
}

-- An implementation that ended is handed to a reconcile task.
abbrev pub hand_over : String → Task → IssueState → Coordinator → Coordinator
hand_over now task issue c =
    let key = start_service_task_key reconcile task.issue_key in
    let stored = put_issue task.issue_key issue c in
    put_task key (reconcile_task now task.issue_key issue (task_at key stored.state)) stored

unfoldable pub apply_implementation :
    Option String
    → String
    → Task
    → Option String
    → Option TaskError
    → Coordinator
    → Coordinator × Option StepError
unfolding written
apply_implementation write now task launch (some (paused info)) c =
    let issue = launched_issue launch (issue_at task.issue_key c.state) in
    written write (put_issue task.issue_key (paused_issue now info issue) c) none
apply_implementation write now task launch (some (failure t)) c =
    let issue = launched_issue launch (issue_at task.issue_key c.state) in
    written write (hand_over now task (finished_issue now t issue) c)
      (some (task_failed task.key (failure t)))
apply_implementation write now task launch none c =
    let issue = launched_issue launch (issue_at task.issue_key c.state) in
    written write (hand_over now task (finished_issue now "" issue) c) none

abbrev pub launched_job : Option String → ScoutJob → ScoutJob
launched_job none job = job
launched_job (some run_id) job = record job { run_id = trimmed_or run_id job.run_id }

abbrev running_job : String → ScoutJob → ScoutJob
running_job now job = record job { status = "running"; last_error = ""; updated_at = now }

unfoldable pub apply_scout_job :
    Option String
    → String
    → Task
    → Option String
    → Option TaskError
    → Coordinator
    → Coordinator × Option StepError
unfolding written
apply_scout_job write now task launch (some (paused info)) c =
    let job = launched_job launch (job_at task.scout_job_id c.state) in
    written write (put_job task.scout_job_id (queued_job now info job) c) none
apply_scout_job write now task launch (some (failure t)) c =
    let job = launched_job launch (job_at task.scout_job_id c.state) in
    written write (put_job task.scout_job_id (failed_job now (failure t) job) c)
      (some (task_failed task.key (failure t)))
apply_scout_job write now task launch none c =
    let job = launched_job launch (job_at task.scout_job_id c.state) in
    written write (put_job task.scout_job_id (running_job now job) c) none

abbrev pub synced_task : String → ServiceTask → ServiceTask
synced_task now task = record task {
  status = "completed";
  result_summary = "synced";
  wait_cycle = "";
  wait_until = "";
  completed_at = now;
  updated_at = now;
}

abbrev pub scouted_task : String → ServiceTask → ServiceTask
scouted_task now task = record task {
  status = "completed";
  wait_cycle = "";
  wait_until = "";
  completed_at = now;
  updated_at = now;
}

-- The cases startTaskKindIssueSync and startTaskKindScout.
unfoldable pub apply_refreshing :
    (ServiceTask → ServiceTask)
    → Option String
    → String
    → Task
    → Option TaskError
    → Coordinator
    → Coordinator × Option StepError
unfolding written
apply_refreshing complete write now task (some error) c =
    handle_service_task_failure write now (task_at task.key c.state) error c
apply_refreshing complete write now task none c =
    let stored = put_task task.key (complete (task_at task.key c.state)) c in
    written write (record stored { refresh_state = true }) none

-- A triage that is applied is written a second time.
abbrev pub write_again :
    Option String → Coordinator × Option StepError → Coordinator × Option StepError
write_again again (c, some e) = (c, some e)
write_again again (c, none) = written again c none

abbrev pub apply_kind :
    TaskKind
    → Option String
    → Option String
    → String
    → TaskResult
    → Coordinator
    → Coordinator × Option StepError
apply_kind implementation write again now result c =
    apply_implementation write now result.task result.launch result.error c
apply_kind scout_job write again now result c =
    apply_scout_job write now result.task result.launch result.error c
apply_kind issue_sync write again now result c =
    apply_refreshing (synced_task now) write now result.task result.error c
apply_kind triage write again now result c =
    let task = result.task in
    write_again again (
      apply_start_work_triage_result write now task.key task.issue_key result.triage result.error c)
apply_kind reconcile write again now result c =
    apply_reconcile write now result.task result.reconcile result.error c
apply_kind scout write again now result c =
    apply_refreshing (scouted_task now) write now result.task result.error c
apply_kind planned_launch write again now result c =
    apply_planned_launch write now result.task result.planned_launch result.error c
apply_kind (other t) write again now result c = (c, some (unknown_kind (other t)))

unfoldable pub apply_task_result :
    Option String
    → Option String
    → String
    → TaskResult
    → Coordinator
    → Coordinator × Option StepError
apply_task_result write again now result c =
    apply_kind (Task.kind result.task) write again now result c
