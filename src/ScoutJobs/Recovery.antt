-- ===== src/ScoutJobs/Recovery.antt =====
-- internal/gocli/scout_jobs.go: the recovery of a job and the tests of it, with normalizeScoutDestination
-- (internal/gocli/improve.go) and localWorkIsStaleCleanupError (internal/gocli/work_local.go). A count of
-- recoveries is a natural number, as behind startWorkScoutJobNormalizeRecovery. Times are texts.
use nana.Prelude.{
  ℕ, ◌+◌, String, Bool, not, ◌&&◌, ◌||◌, ◌==◌, eqb, leb, ltb, if◌then◌else◌, default_string,
  trim_space,
}
use nana.Queue.Priority.{lowers_to}
use nana.Scheduler.State.{ScoutJob}
use nana.Scheduler.Launch.{clear_recovery}
use nana.Scheduler.Queues.Identifiers.{contains}

-- localWorkManifest, the fields that are read here; of the iterations their number.
pub record Manifest : Type 0 where
  pub run_id : String
  pub status : String
  pub last_error : String
  pub pause_reason : String
  pub pause_until : String
  pub current_iteration : ℕ
  pub iterations : ℕ
  pub max_iterations : ℕ
  pub completed_at : String
  pub updated_at : String

abbrev pub stale_cleanup_error : String
stale_cleanup_error = "stale running run cleaned up at start: no active process found"

abbrev pub stale_pause_reason : String
stale_pause_reason = "auto-retrying after stale startup cleanup"

unfoldable pub is_stale_cleanup_error : String → Bool
is_stale_cleanup_error message = contains stale_cleanup_error (trim_space message)

unfoldable pub is_local_destination : String → Bool
is_local_destination value =
    let text = trim_space value in
    not (
      lowers_to text "target"
      || lowers_to text "repo"
      || lowers_to text "fork"
      || lowers_to text "review"
      || lowers_to text "manual")

unfoldable pub is_resolved : String → Bool
is_resolved status =
    let text = trim_space status in
    lowers_to text "completed" || lowers_to text "dismissed" || lowers_to text "deleted"

unfoldable pub has_recovery_metadata : ScoutJob → Bool
has_recovery_metadata job =
    ltb 0 job.recovery_count
    || not (trim_space job.last_recovery_reason == "")
    || not (trim_space job.last_recovery_at == "")
    || not (trim_space job.last_recovered_run_id == "")

unfoldable pub in_recovery_cooldown : ScoutJob → Bool
in_recovery_cooldown job =
    is_local_destination job.destination
    && trim_space job.pause_reason == stale_pause_reason
    && not (trim_space job.pause_until == "")
    && trim_space job.last_recovery_reason == stale_cleanup_error
    && not (trim_space job.last_recovered_run_id == "")

unfoldable pub needs_approval : ScoutJob → Bool
needs_approval job = not (in_recovery_cooldown job) && trim_space job.status == "failed"

unfoldable pub without_metadata : ScoutJob → ScoutJob
without_metadata job =
    if is_resolved job.status && has_recovery_metadata job then clear_recovery job else job

unfoldable pub without_stale_pause : ScoutJob → ScoutJob
without_stale_pause job =
    if is_resolved job.status && trim_space job.pause_reason == stale_pause_reason
    then (record job { pause_reason = ""; pause_until = "" })
    else job

-- startWorkScoutJobNormalizeRecovery, without the result that says whether the job changed.
unfoldable pub normalize_recovery : ScoutJob → ScoutJob
normalize_recovery job = without_stale_pause (without_metadata job)

-- The three ways in which a job is recovered; `retry_at` is the time of the cooldown's end.
unfoldable pub recovery_reason : Manifest → String
recovery_reason manifest = default_string (trim_space manifest.last_error) stale_cleanup_error

unfoldable pub recovered : Manifest → String → ScoutJob → ScoutJob
recovered manifest now job = record job {
  recovery_count = job.recovery_count + 1;
  last_recovery_reason = recovery_reason manifest;
  last_recovery_at = now;
  last_recovered_run_id = trim_space manifest.run_id;
  updated_at = now;
}

unfoldable pub record_stale_recovery : Manifest → String → String → ScoutJob → ScoutJob
record_stale_recovery manifest now retry_at job = record (recovered manifest now job) {
  status = "queued";
  run_id = "";
  last_error = recovery_reason manifest;
  pause_reason = stale_pause_reason;
  pause_until = retry_at;
}

unfoldable pub record_recovered_run : Manifest → String → ScoutJob → ScoutJob
record_recovered_run manifest now job = record (recovered manifest now job) {
  status = "running";
  run_id = trim_space manifest.run_id;
  last_error = "";
  pause_reason = "";
  pause_until = "";
}

unfoldable pub requeue_after_stale_cleanup : Manifest → String → ScoutJob → ScoutJob
requeue_after_stale_cleanup manifest now job = record (recovered manifest now job) {
  status = "queued";
  run_id = "";
  last_error = recovery_reason manifest;
  pause_reason = "";
  pause_until = "";
}

unfoldable pub ended_before_first_iteration : Manifest → Bool
ended_before_first_iteration manifest =
    eqb manifest.current_iteration 0 && eqb manifest.iterations 0

unfoldable pub should_auto_retry : ScoutJob → Manifest → Bool
should_auto_retry job manifest =
    is_local_destination job.destination
    && not (ltb 0 job.recovery_count)
    && not (ltb 1 job.attempts)
    && is_stale_cleanup_error manifest.last_error
    && ended_before_first_iteration manifest

unfoldable pub can_resume : ScoutJob → Manifest → Bool
can_resume job manifest =
    is_local_destination job.destination
    && not (trim_space job.run_id == "")
    && trim_space job.run_id == trim_space manifest.run_id
    && is_stale_cleanup_error manifest.last_error
    && not (trim_space manifest.status == "completed")
    && not (leb manifest.max_iterations manifest.iterations)
