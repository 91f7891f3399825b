-- ===== src/ScoutJobs/Actions.antt =====
-- internal/gocli/scout_jobs.go: mutateStartWorkScoutJob, behind the read of the state and in front of its
-- write, with restoreStartWorkScoutJobStatus.
use nana.Prelude.{String, ◌||◌, Option, none, some, List, ◌==◌, if◌then◌else◌, lookup, trim_space}
use nana.Queue.Priority.{lowers_to}
use nana.Scheduler.State.{ScoutJob}
use nana.Scheduler.Launch.{clear_recovery}

pub data ActionError : Type 0 where
  job_not_found : String → ActionError
  not_dismissable not_retryable : String → String → ActionError
  not_deleted : String → ActionError
  unsupported_action : String → ActionError

pub data Acted : Type 0 where
  refused : ActionError → Acted
  acted : ScoutJob → Acted

unfoldable pub restore_status : String → String
restore_status value =
    let text = trim_space value in
    if lowers_to text "queued"
    then "queued"
    else if lowers_to text "failed"
    then "failed"
    else if lowers_to text "dismissed"
    then "dismissed"
    else if lowers_to text "completed"
    then "completed"
    else "dismissed"

unfoldable pub dismissed_job : String → ScoutJob → ScoutJob
dismissed_job now job = record (clear_recovery job) {
  status = "dismissed";
  deleted_from_status = "";
  deleted_at = "";
  last_error = "";
  pause_reason = "";
  pause_until = "";
  updated_at = now;
}

unfoldable pub retried_job : String → ScoutJob → ScoutJob
retried_job now job = record (clear_recovery job) {
  status = "queued";
  deleted_from_status = "";
  deleted_at = "";
  run_id = "";
  last_error = "";
  pause_reason = "";
  pause_until = "";
  updated_at = now;
}

unfoldable pub restored_job : String → ScoutJob → ScoutJob
restored_job now job = record job {
  status = restore_status job.deleted_from_status;
  deleted_from_status = "";
  deleted_at = "";
  updated_at = now;
}

-- The switch over the action.
unfoldable pub act : String → String → String → ScoutJob → Acted
act action now id job =
    if action == "dismiss"
    then (if job.status == "queued" || job.status == "failed"
        then acted (dismissed_job now job)
        else refused (not_dismissable id job.status))
    else if action == "retry" || action == "reset"
    then (if job.status == "failed" || job.status == "dismissed"
        then acted (retried_job now job)
        else refused (not_retryable id job.status))
    else if action == "restore"
    then (if job.status == "deleted"
        then acted (restored_job now job)
        else refused (not_deleted id))
    else refused (unsupported_action action)

abbrev pub act_on : String → String → String → Option ScoutJob → Acted
act_on action now id none = refused (job_not_found id)
act_on action now id (some job) = act action now id job

unfoldable pub mutate : String → String → String → List (String × ScoutJob) → Acted
mutate id action now jobs = act_on action now id (lookup id jobs)
