-- ===== src/ScoutJobs/Tests.antt =====
-- Runs of the jobs of scouts.
use nana.Prelude.{
  ◌+◌, true, some, List, [], ◌∷◌, map, ◌≡◌, refl, put, lookup, trim_space, trim_left, trim_right,
  is_space,
}
use nana.Prelude.Pairwise.{Pairwise}
use nana.Queue.Priority.{lowers_to}
use nana.Scheduler.State.{ScoutJob, zero_job}
use nana.Scheduler.Queues.Identifiers.{contains, cut_prefix}
use nana.ScoutJobs.Recovery.{
  Manifest, normalize_recovery, record_recovered_run, recovered, can_resume, is_local_destination,
  is_stale_cleanup_error,
}
use nana.ScoutJobs.Stale.{
  Restarted, recover_from_stale_manifests, recover_jobs, recover_job, index_manifests,
  with_recovery,
}
use nana.ScoutJobs.Events.{JobEvent, asked, looked_up, restarted, normalized, is_normal, run_job}
use nana.ScoutJobs.Normal.{run_job-normalized}
use nana.ScoutJobs.Recovered.{AtRestart, with_manifest, recover_from_stale_manifests-revived}

abbrev stale_run : Manifest
stale_run = record {
  run_id = "r1";
  status = "failed";
  last_error = "stale running run cleaned up at start: no active process found";
  pause_reason = "";
  pause_until = "";
  current_iteration = 0;
  iterations = 0;
  max_iterations = 3;
  completed_at = "t0";
  updated_at = "t0";
}

abbrev recovered_once : ScoutJob
recovered_once = record zero_job {
  status = "running";
  run_id = "r1";
  destination = "local";
  recovery_count = 1;
  last_recovery_reason = "x";
}

abbrev events : List JobEvent
events =
    looked_up (some stale_run) "t1" "t2"
    ∷ asked "dismiss" "t3"
    ∷ restarted true stale_run "t4"
    ∷ normalized
    ∷ []

run_job-normalized_example : is_normal (run_job events (normalize_recovery recovered_once)) ≡ true
run_job-normalized_example = run_job-normalized events recovered_once

abbrev dismissed_once : ScoutJob
dismissed_once = record zero_job { status = "dismissed"; run_id = "r1"; destination = "local" }

abbrev after_restart : Restarted
after_restart =
    recover_from_stale_manifests (λ id. true) (stale_run ∷ []) "t4"
      (("j1", dismissed_once) ∷ ("j2", zero_job) ∷ [])

dismissed_runs_again : map (λ e. e.1.status) after_restart.jobs ≡ "running" ∷ "" ∷ []
unfolding recover_from_stale_manifests recover_jobs recover_job record_recovered_run recovered
    index_manifests put lookup with_recovery can_resume is_local_destination is_stale_cleanup_error
    lowers_to trim_space trim_left trim_right is_space contains cut_prefix
dismissed_runs_again = refl

recover_from_stale_manifests-revived_example :
    Pairwise
      (AtRestart (λ id. true) (stale_run ∷ []))
      (("j1", dismissed_once) ∷ ("j2", zero_job) ∷ [])
      after_restart.jobs
    × (after_restart.resumed_count + after_restart.requeued_count
        ≡ with_manifest (stale_run ∷ []) (("j1", dismissed_once) ∷ ("j2", zero_job) ∷ []))
recover_from_stale_manifests-revived_example =
    recover_from_stale_manifests-revived (λ id. true) (stale_run ∷ []) "t4"
      (("j1", dismissed_once) ∷ ("j2", zero_job) ∷ [])
