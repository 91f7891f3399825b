-- ===== src/Scheduler/Launch.antt =====
-- internal/gocli/start_scheduler.go: the case startTaskKindPlannedLaunch of applyTaskResult, with
-- findScoutJobByLegacyPlannedItemID and startWorkScoutJobClearRecovery
-- (internal/gocli/scout_jobs.go). The first job in the order of the association list is found.
use nana.Prelude.{String, true, Option, none, some, List, [], ◌∷◌, ◌==◌, if◌then◌else◌, trim_space}
use nana.Scheduler.State.{
  PlannedItem, ScoutJob, WorkState, Task, Coordinator, TaskError, paused, failure, PauseInfo,
  PlannedLaunchResult, StepError, nil_pointer, task_failed, written, put_item, put_job, item_at,
  codex_pause_info_message, error_text, default_string,
}

abbrev pub first_job : String → List (String × ScoutJob) → Option (String × ScoutJob)
first_job item [] = none
first_job item ((id, job) ∷ jobs) =
    if trim_space job.legacy_planned_item_id == item then some (id, job) else first_job item jobs

unfoldable pub find_scout_job_by_legacy_planned_item_id :
    WorkState → String → Option (String × ScoutJob)
find_scout_job_by_legacy_planned_item_id state planned_item_id =
    let item = trim_space planned_item_id in
    if item == "" then none else first_job item state.scout_jobs

unfoldable pub clear_recovery : ScoutJob → ScoutJob
clear_recovery job = record job {
  recovery_count = 0;
  last_recovery_reason = "";
  last_recovery_at = "";
  last_recovered_run_id = "";
}

abbrev pub put_found :
    Option (String × ScoutJob) → (ScoutJob → ScoutJob) → Coordinator → Coordinator
put_found none change c = c
put_found (some (id, job)) change c = put_job id (change job) c

abbrev queued_item : String → PauseInfo → String → PlannedItem → PlannedItem
queued_item now info run_id item = record item {
  state = "queued";
  launch_run_id = default_string item.launch_run_id run_id;
  last_error = codex_pause_info_message info;
  schedule_at = trim_space info.retry_after;
  deferred_reason = default_string (trim_space info.reason) "rate limited";
  updated_at = now;
}

abbrev pub queued_job : String → PauseInfo → ScoutJob → ScoutJob
queued_job now info job = record job {
  status = "queued";
  last_error = codex_pause_info_message info;
  pause_reason = default_string (trim_space info.reason) "rate limited";
  pause_until = trim_space info.retry_after;
  updated_at = now;
}

abbrev failed_item : String → TaskError → PlannedItem → PlannedItem
failed_item now error item = record item {
  state = "failed";
  last_error = error_text error;
  updated_at = now;
}

abbrev pub failed_job : String → TaskError → ScoutJob → ScoutJob
failed_job now error job = record job {
  status = "failed";
  last_error = error_text error;
  updated_at = now;
}

abbrev launched_item : String → PlannedLaunchResult → PlannedItem → PlannedItem
launched_item now result item = record item {
  state = "launched";
  launch_run_id = result.run_id;
  launch_issue_number = result.issue_number;
  launch_issue_url = result.issue_url;
  launch_result = default_string result.result result.status;
  last_error = "";
  updated_at = now;
}

-- A run id that is white space is not taken over.
abbrev pub trimmed_or : String → String → String
trimmed_or run_id old = if trim_space run_id == "" then old else trim_space run_id

abbrev completed_job : String → PlannedLaunchResult → ScoutJob → ScoutJob
completed_job now result job =
    let cleared = clear_recovery (record job { status = "completed"; last_error = "" }) in
    record cleared { updated_at = now; run_id = trimmed_or result.run_id job.run_id }

unfoldable pub apply_planned_launch :
    Option String
    → String
    → Task
    → Option PlannedLaunchResult
    → Option TaskError
    → Coordinator
    → Coordinator × Option StepError
unfolding written
apply_planned_launch write now task none (some (paused info)) c = (c, some nil_pointer)
apply_planned_launch write now task (some result) (some (paused info)) c =
    let item = item_at task.planned_item_id c.state in
    let found = find_scout_job_by_legacy_planned_item_id c.state task.planned_item_id in
    let stored = put_item task.planned_item_id (queued_item now info result.run_id item) c in
    written write (put_found found (queued_job now info) stored) none
apply_planned_launch write now task result (some (failure t)) c =
    let item = item_at task.planned_item_id c.state in
    let found = find_scout_job_by_legacy_planned_item_id c.state task.planned_item_id in
    let stored = put_item task.planned_item_id (failed_item now (failure t) item) c in
    written write (put_found found (failed_job now (failure t)) stored)
      (some (task_failed task.key (failure t)))
apply_planned_launch write now task none none c = (c, some nil_pointer)
apply_planned_launch write now task (some result) none c =
    let item = item_at task.planned_item_id c.state in
    let found = find_scout_job_by_legacy_planned_item_id c.state task.planned_item_id in
    let stored = put_item task.planned_item_id (launched_item now result item) c in
    let completed = put_found found (completed_job now result) stored in
    written write (record completed { refresh_state = true }) none
