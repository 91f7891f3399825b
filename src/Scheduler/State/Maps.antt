-- ===== src/Scheduler/State/Maps.antt =====
-- Reading and writing the maps of the state.
use nana.Prelude.{pos, String, Option, none, some, [], lookup, put}
use nana.Scheduler.State.Records.{
  IssueState, ServiceTask, PlannedItem, ScoutJob, WorkState, Coordinator, other,
}

abbrev pub zero_issue : IssueState
zero_issue = record {
  source_number = 0;
  fork_number = 0;
  work_type = "";
  state = "";
  labels = [];
  source_fingerprint = "";
  priority = 0;
  priority_source = "";
  complexity = 0;
  status = "";
  triage_status = "";
  triage_rationale = "";
  triage_fingerprint = "";
  triage_updated_at = "";
  triage_error = "";
  last_run_id = "";
  last_run_updated_at = "";
  last_run_error = "";
  published_pr_number = 0;
  published_pr_url = "";
  publication_state = "";
  blocked_reason = "";
  manual_priority = pos 0;
  manual_priority_updated_at = "";
  schedule_at = "";
  schedule_updated_at = "";
  deferred_reason = "";
  updated_at = "";
}

abbrev pub zero_task : ServiceTask
zero_task = record {
  id = "";
  kind = other "";
  queue = "";
  status = "";
  issue_key = "";
  planned_item_id = "";
  scout_role = "";
  generation = "";
  fingerprint = "";
  run_id = "";
  dependency_keys = [];
  attempts = 0;
  last_error = "";
  result_summary = "";
  wait_cycle = "";
  wait_until = "";
  started_at = "";
  completed_at = "";
  updated_at = "";
}

abbrev pub zero_item : PlannedItem
zero_item = record {
  id = "";
  title = "";
  description = "";
  priority = 0;
  state = "";
  schedule_at = "";
  deferred_reason = "";
  launch_run_id = "";
  launch_issue_url = "";
  launch_issue_number = 0;
  launch_result = "";
  last_error = "";
  updated_at = "";
}

abbrev pub zero_job : ScoutJob
zero_job = record {
  title = "";
  artifact_path = "";
  work_type = "";
  destination = "";
  status = "";
  run_id = "";
  attempts = 0;
  last_error = "";
  pause_until = "";
  pause_reason = "";
  recovery_count = 0;
  last_recovery_reason = "";
  last_recovery_at = "";
  last_recovered_run_id = "";
  updated_at = "";
  legacy_planned_item_id = "";
  deleted_from_status = "";
  deleted_at = "";
}

abbrev pub or_zero {ℓ} : {A : Type ℓ} → A → Option A → A
or_zero z none = z
or_zero z (some a) = a

unfoldable pub issue_at : String → WorkState → IssueState
issue_at k s = or_zero zero_issue (lookup k s.issues)

unfoldable pub task_at : String → WorkState → ServiceTask
task_at k s = or_zero zero_task (lookup k s.service_tasks)

unfoldable pub item_at : String → WorkState → PlannedItem
item_at k s = or_zero zero_item (lookup k s.planned_items)

unfoldable pub job_at : String → WorkState → ScoutJob
job_at k s = or_zero zero_job (lookup k s.scout_jobs)

unfoldable pub put_issue : String → IssueState → Coordinator → Coordinator
put_issue k v c = record c { state = record s { issues = put k v s.issues } }
  where
    s : WorkState
    s = c.state

unfoldable pub put_task : String → ServiceTask → Coordinator → Coordinator
put_task k v c = record c { state = record s { service_tasks = put k v s.service_tasks } }
  where
    s : WorkState
    s = c.state

unfoldable pub put_item : String → PlannedItem → Coordinator → Coordinator
put_item k v c = record c { state = record s { planned_items = put k v s.planned_items } }
  where
    s : WorkState
    s = c.state

unfoldable pub put_job : String → ScoutJob → Coordinator → Coordinator
put_job k v c = record c { state = record s { scout_jobs = put k v s.scout_jobs } }
  where
    s : WorkState
    s = c.state
