-- ===== src/ScoutJobs/Stale.antt =====
-- internal/gocli/scout_jobs.go: reconcileStartWorkScoutJobRunState and recoverStartWorkScoutJobsFromStaleManifests.
-- What the read of a manifest gives is an argument, and so is, for each job, whether its run can be started
-- again, where that is tried.
use nana.Prelude.{
  ℕ, ◌+◌, String, Bool, not, ◌&&◌, ◌||◌, Option, none, some, List, [], ◌∷◌, ◌==◌, if◌then◌else◌,
  default_string, trim_space, lookup, put,
}
use Prim.Native.String.{◌++◌}
use nana.Scheduler.State.{ScoutJob}
use nana.Scheduler.Launch.{clear_recovery}
use nana.ScoutJobs.Recovery.{
  Manifest, stale_cleanup_error, is_stale_cleanup_error, is_local_destination,
  record_stale_recovery, record_recovered_run, requeue_after_stale_cleanup, should_auto_retry,
  can_resume,
}

unfoldable pub should_reconcile : ScoutJob → Bool
should_reconcile job =
    not (trim_space job.run_id == "")
    && (trim_space job.status == "running"
        || (trim_space job.status == "failed" && is_stale_cleanup_error job.last_error))

abbrev pub ended_text : ScoutJob → Manifest → String
ended_text job manifest =
    default_string (trim_space manifest.last_error)
      ("local work run " ++ job.run_id ++ " ended with status " ++ manifest.status)

abbrev pub failed_run : Manifest → ScoutJob → ScoutJob
failed_run manifest job = record job {
  status = "failed";
  last_error = ended_text job manifest;
  pause_until = "";
  pause_reason = "";
}

-- The switch over the manifest's status.
unfoldable pub job_behind : Manifest → ScoutJob → ScoutJob
job_behind manifest job =
    let status = trim_space manifest.status in
    if status == "running"
    then (record job { last_error = ""; pause_until = ""; pause_reason = "" })
    else if status == "paused"
    then (record job {
      status = "running";
      last_error = default_string (trim_space manifest.last_error) "rate limited";
      pause_reason = default_string (trim_space manifest.pause_reason) "rate limited";
      pause_until = trim_space manifest.pause_until;
    })
    else if status == "completed"
    then clear_recovery
        (record job { status = "completed"; last_error = ""; pause_until = ""; pause_reason = "" })
    else if status == "failed" || status == "blocked"
    then failed_run manifest job
    else if trim_space manifest.completed_at == ""
    then job
    else failed_run manifest job

unfoldable pub dated : Manifest → ScoutJob → ScoutJob
dated manifest job = record job {
  updated_at =
      default_string (trim_space manifest.completed_at)
        (default_string (trim_space manifest.updated_at) job.updated_at);
}

-- The manifest that stands for a run that has none.
abbrev pub missing_run : ScoutJob → Manifest
missing_run job = record {
  run_id = job.run_id;
  status = "";
  last_error = default_string (trim_space job.last_error) stale_cleanup_error;
  pause_reason = "";
  pause_until = "";
  current_iteration = 0;
  iterations = 0;
  max_iterations = 0;
  completed_at = "";
  updated_at = "";
}

abbrev pub reconcile_with : Option Manifest → String → String → ScoutJob → ScoutJob
reconcile_with none now retry_at job =
    if is_stale_cleanup_error job.last_error && is_local_destination job.destination
    then requeue_after_stale_cleanup (missing_run job) now job
    else job
reconcile_with (some manifest) now retry_at job =
    if should_auto_retry job manifest
    then record_stale_recovery manifest now retry_at job
    else if is_stale_cleanup_error manifest.last_error
    then requeue_after_stale_cleanup manifest now job
    else dated manifest (job_behind manifest job)

unfoldable pub reconcile_run_state : Option Manifest → String → String → ScoutJob → ScoutJob
reconcile_run_state manifest now retry_at job =
    if should_reconcile job then reconcile_with manifest now retry_at job else job

-- The loop over the jobs at a restart: the job, and whether its run goes on.
pub data Recovery : Type 0 where
  resumed requeued : ScoutJob → Recovery

-- Of the manifest that stands for a run which goes on, the run id and the error are read.
unfoldable pub resumed_run : Manifest → Manifest
resumed_run manifest = record manifest { last_error = stale_cleanup_error }

unfoldable pub recover_job : Bool → Manifest → String → ScoutJob → Recovery
recover_job starts manifest now job =
    if trim_space manifest.status == "running" && trim_space manifest.last_error == ""
    then resumed (record_recovered_run (resumed_run manifest) now job)
    else if can_resume job manifest && starts
    then resumed (record_recovered_run manifest now job)
    else requeued (requeue_after_stale_cleanup manifest now job)

abbrev pub recovered_job : Recovery → ScoutJob
recovered_job (resumed job) = job
recovered_job (requeued job) = job

-- manifestByRunID, where the last manifest of a run counts.
unfoldable pub index_manifests : List Manifest → List (String × Manifest) → List (String × Manifest)
index_manifests [] index = index
index_manifests (manifest ∷ manifests) index = index_manifests manifests (
    if trim_space manifest.run_id == ""
    then index
    else put (trim_space manifest.run_id) manifest index)

pub record Restarted : Type 0 where
  pub jobs : List (String × ScoutJob)
  pub resumed_count : ℕ
  pub requeued_count : ℕ

unfoldable pub with_recovery : String → Recovery → Restarted → Restarted
with_recovery id (resumed job) r = record r {
  jobs = (id, job) ∷ r.jobs;
  resumed_count = r.resumed_count + 1;
}
with_recovery id (requeued job) r = record r {
  jobs = (id, job) ∷ r.jobs;
  requeued_count = r.requeued_count + 1;
}

abbrev pub recover_if :
    (String → Bool) → Option Manifest → String → String → ScoutJob → Restarted → Restarted
recover_if can_start none now id job r = record r { jobs = (id, job) ∷ r.jobs }
recover_if can_start (some manifest) now id job r =
    with_recovery id (recover_job (can_start id) manifest now job) r

unfoldable pub recover_jobs :
    (String → Bool) → List (String × Manifest) → String → List (String × ScoutJob) → Restarted
recover_jobs can_start index now [] = record { jobs = []; resumed_count = 0; requeued_count = 0 }
recover_jobs can_start index now ((id, job) ∷ jobs) =
    recover_if can_start (lookup (trim_space job.run_id) index) now id job
      (recover_jobs can_start index now jobs)

unfoldable pub recover_from_stale_manifests :
    (String → Bool) → List Manifest → String → List (String × ScoutJob) → Restarted
recover_from_stale_manifests can_start manifests now jobs =
    recover_jobs can_start (index_manifests manifests []) now jobs
