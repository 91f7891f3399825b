-- ===== src/Scheduler/Reconcile.antt =====
-- internal/gocli/start_scheduler.go: the case startTaskKindReconcile of applyTaskResult.
use nana.Prelude.{String, Option, none, some, ltb, if◌then◌else◌}
use nana.Scheduler.State.{
  IssueState, ServiceTask, Task, Coordinator, TaskError, ReconcileResult, StepError, nil_pointer,
  task_failed, written, put_task, put_issue, task_at, issue_at, error_text, default_string,
  service_task_retry_limit,
}

abbrev retried_reconcile : String → TaskError → ServiceTask → ServiceTask
retried_reconcile now error task = record task {
  status = "queued";
  last_error = error_text error;
  result_summary = "retrying";
  started_at = "";
  updated_at = now;
}

abbrev failed_reconcile : String → TaskError → ServiceTask → ServiceTask
failed_reconcile now error task = record task {
  status = "failed";
  last_error = error_text error;
  completed_at = now;
  updated_at = now;
}

abbrev reconciling_issue : String → IssueState → IssueState
reconciling_issue now issue = record issue {
  status = "reconciling";
  blocked_reason = "";
  updated_at = now;
}

abbrev blocked_issue : String → TaskError → IssueState → IssueState
blocked_issue now error issue = record issue {
  status = "blocked";
  blocked_reason = error_text error;
  updated_at = now;
}

abbrev waiting_task : String → String → ReconcileResult → ServiceTask → ServiceTask
waiting_task cycle now result task = record task {
  status = "queued";
  last_error = result.blocked_reason;
  result_summary = "waiting";
  wait_cycle = cycle;
  wait_until = "";
  started_at = "";
  updated_at = now;
  run_id = result.run_id;
}

abbrev waiting_issue : String → ReconcileResult → IssueState → IssueState
waiting_issue now result issue = record issue {
  status = "reconciling";
  blocked_reason = "";
  last_run_id = result.run_id;
  last_run_updated_at = now;
  updated_at = now;
}

-- What a retry that is not left does to the issue, before it is completed.
abbrev exhausted_issue : ReconcileResult → IssueState → IssueState
exhausted_issue result issue = record issue {
  status = "blocked";
  blocked_reason = default_string result.blocked_reason "reconcile retries exhausted";
}

abbrev completed_reconcile : String → ReconcileResult → ServiceTask → ServiceTask
completed_reconcile now result task = record task {
  status = "completed";
  result_summary = result.status;
  wait_cycle = "";
  wait_until = "";
  completed_at = now;
  updated_at = now;
  run_id = result.run_id;
}

abbrev reconciled_issue : String → ReconcileResult → IssueState → IssueState
reconciled_issue now result issue = record issue {
  status = result.status;
  blocked_reason = result.blocked_reason;
  last_run_id = result.run_id;
  last_run_updated_at = now;
  published_pr_number = result.published_pr_number;
  published_pr_url = result.published_pr_url;
  publication_state = result.publication_state;
  updated_at = now;
}

-- The rest of the case, and the last write of applyTaskResult.
abbrev complete_reconcile :
    Option String
    → String
    → Task
    → ReconcileResult
    → ServiceTask
    → IssueState
    → Coordinator
    → Coordinator × Option StepError
complete_reconcile write now task result service issue c =
    written write
      (put_issue task.issue_key (reconciled_issue now result issue)
        (put_task task.key (completed_reconcile now result service) c))
      none

unfoldable pub reconcile_failed :
    Option String → String → Task → TaskError → Coordinator → Coordinator × Option StepError
unfolding written
reconcile_failed write now task error c =
    let service = task_at task.key c.state in
    let issue = issue_at task.issue_key c.state in
    if ltb service.attempts (service_task_retry_limit service.kind)
    then written write
        (put_issue task.issue_key (reconciling_issue now issue)
          (put_task task.key (retried_reconcile now error service) c))
        none
    else written write
        (put_issue task.issue_key (blocked_issue now error issue)
          (put_task task.key (failed_reconcile now error service) c))
        (some (task_failed task.key error))

unfoldable pub reconciled :
    Option String → String → Task → ReconcileResult → Coordinator → Coordinator × Option StepError
unfolding written
reconciled write now task result c =
    let service = task_at task.key c.state in
    let issue = issue_at task.issue_key c.state in
    if result.should_retry
    then (if ltb service.attempts (service_task_retry_limit service.kind)
        then written write
            (put_issue task.issue_key (waiting_issue now result issue)
              (put_task task.key (waiting_task c.cycle_id now result service) c))
            none
        else complete_reconcile write now task result service (exhausted_issue result issue) c)
    else complete_reconcile write now task result service issue c

-- Without an error, a nil result is dereferenced.
unfoldable pub apply_reconcile :
    Option String
    → String
    → Task
    → Option ReconcileResult
    → Option TaskError
    → Coordinator
    → Coordinator × Option StepError
apply_reconcile write now task result (some error) c = reconcile_failed write now task error c
apply_reconcile write now task none none c = (c, some nil_pointer)
apply_reconcile write now task (some result) none c = reconciled write now task result c
