-- ===== src/Scheduler/Triage.antt =====
-- internal/gocli/start_triage.go: applyStartWorkTriageResult, with startWorkPriorityLabel
-- (internal/gocli/start_work.go). A priority is a natural number.
use nana.Prelude.{ℕ, eqb, String, Option, none, some, ltb, if◌then◌else◌, lookup}
use nana.Scheduler.State.{
  IssueState, ServiceTask, Coordinator, TaskError, TriageResult, StepError, triage_task_missing,
  triage_issue_missing, triage_result_missing, task_failed, written, put_task, put_issue,
  error_text, service_task_retry_limit,
}

unfoldable pub start_work_priority_label : ℕ → String
start_work_priority_label priority =
    if eqb priority 0
    then "P0"
    else if eqb priority 1
    then "P1"
    else if eqb priority 2
    then "P2"
    else if eqb priority 3
    then "P3"
    else if eqb priority 4
    then "P4"
    else "P5"

abbrev untriaged_issue : String → String → TaskError → IssueState → IssueState
untriaged_issue now status error issue = record issue {
  triage_status = status;
  triage_error = error_text error;
  triage_updated_at = now;
  updated_at = now;
}

abbrev triaged_issue : String → TriageResult → IssueState → IssueState
triaged_issue now result issue = record issue {
  priority = result.priority;
  priority_source = "triage";
  triage_status = "completed";
  triage_rationale = result.rationale;
  triage_fingerprint = issue.source_fingerprint;
  triage_updated_at = now;
  triage_error = "";
  updated_at = now;
}

abbrev retried_triage : String → TaskError → ServiceTask → ServiceTask
retried_triage now error task = record task {
  status = "queued";
  last_error = error_text error;
  result_summary = "retrying";
  wait_cycle = "";
  wait_until = "";
  started_at = "";
  updated_at = now;
}

abbrev failed_triage : String → TaskError → ServiceTask → ServiceTask
failed_triage now error task = record task {
  status = "failed";
  last_error = error_text error;
  wait_cycle = "";
  wait_until = "";
  completed_at = now;
  updated_at = now;
}

abbrev completed_triage : String → TriageResult → IssueState → ServiceTask → ServiceTask
completed_triage now result issue task = record task {
  status = "completed";
  result_summary = start_work_priority_label result.priority;
  wait_cycle = "";
  wait_until = "";
  completed_at = now;
  updated_at = now;
  fingerprint = issue.source_fingerprint;
}

-- Behind the two lookups.
unfoldable pub apply_found_triage :
    Option String
    → String
    → String
    → String
    → Option TriageResult
    → Option TaskError
    → ServiceTask
    → IssueState
    → Coordinator
    → Coordinator × Option StepError
unfolding written start_work_priority_label
apply_found_triage write now key issue_key result (some error) task issue c =
    if ltb task.attempts (service_task_retry_limit task.kind)
    then written write
        (put_issue issue_key (untriaged_issue now "queued" error issue)
          (put_task key (retried_triage now error task) c))
        none
    else written write
        (put_issue issue_key (untriaged_issue now "failed" error issue)
          (put_task key (failed_triage now error task) c))
        (some (task_failed key error))
apply_found_triage write now key issue_key none none task issue c = (c, some triage_result_missing)
apply_found_triage write now key issue_key (some result) none task issue c =
    written write
      (put_issue issue_key (triaged_issue now result issue)
        (put_task key (completed_triage now result issue task) c))
      none

abbrev with_issue :
    Option String
    → String
    → String
    → String
    → Option TriageResult
    → Option TaskError
    → ServiceTask
    → Option IssueState
    → Coordinator
    → Coordinator × Option StepError
with_issue write now key issue_key result error task none c =
    (c, some (triage_issue_missing issue_key))
with_issue write now key issue_key result error task (some issue) c =
    apply_found_triage write now key issue_key result error task issue c

abbrev with_task :
    Option String
    → String
    → String
    → String
    → Option TriageResult
    → Option TaskError
    → Option ServiceTask
    → Coordinator
    → Coordinator × Option StepError
with_task write now key issue_key result error none c = (c, some (triage_task_missing key))
with_task write now key issue_key result error (some task) c =
    with_issue write now key issue_key result error task (lookup issue_key c.state.issues) c

unfoldable pub apply_start_work_triage_result :
    Option String
    → String
    → String
    → String
    → Option TriageResult
    → Option TaskError
    → Coordinator
    → Coordinator × Option StepError
apply_start_work_triage_result write now key issue_key result error c =
    with_task write now key issue_key result error (lookup key c.state.service_tasks) c
