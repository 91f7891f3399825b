-- ===== src/ScoutJobs/Normal.antt =====
-- A job that is resolved keeps nothing of its recovery.
use nana.Prelude.{
  String, Bool, true, false, ◌&&◌, ◌||◌, Option, none, some, List, [], ◌∷◌, ◌==◌, if◌then◌else◌,
  trim_space, trim_left, trim_right, is_space, ◌≡◌, inl, inr, refl, arith, eq_iff, Bool-cases,
}
use nana.Queue.Priority.{lowers_to}
use nana.Scheduler.State.{ScoutJob}
use nana.Scheduler.Launch.{clear_recovery}
use nana.ScoutJobs.Recovery.{
  Manifest, stale_pause_reason, is_resolved, has_recovery_metadata, without_metadata,
  without_stale_pause, normalize_recovery, record_stale_recovery, record_recovered_run,
  requeue_after_stale_cleanup, should_auto_retry, is_stale_cleanup_error, is_local_destination,
  can_resume,
}
use nana.ScoutJobs.Actions.{Acted, act, dismissed_job, retried_job, restored_job}
use nana.ScoutJobs.Stale.{
  should_reconcile, job_behind, dated, reconcile_with, reconcile_run_state, Recovery, recovered_job,
  recover_job,
}
use nana.ScoutJobs.Events.{
  is_normal, JobEvent, asked, looked_up, restarted, normalized, acted_job, job_step, run_job,
  unresolved, cleared_metadata, cleared, live, normal_if,
}

without_metadata-none :
    (job : ScoutJob)
    → (is_resolved (without_metadata job).status && has_recovery_metadata (without_metadata job))
      ≡ false
unfolding without_metadata
without_metadata-none job =
    elim (Bool-cases (is_resolved job.status && has_recovery_metadata job)) [
      | inl h ↦
          rw h (rw (cleared_metadata job) (and_false (is_resolved (clear_recovery job).status)))
      | inr h ↦ rw h h
    ]
  where
    and_false : (b : Bool) → (b && false) ≡ false
    and_false true = refl
    and_false false = refl

blank_reason : (trim_space "" == stale_pause_reason) ≡ false
unfolding trim_space trim_left trim_right
blank_reason = refl

without_stale_pause-is_normal :
    (job : ScoutJob)
    → (is_resolved job.status && has_recovery_metadata job) ≡ false
    → is_normal (without_stale_pause job) ≡ true
unfolding without_stale_pause is_normal has_recovery_metadata
without_stale_pause-is_normal job h =
    elim (Bool-cases
      (is_resolved job.status && trim_space job.pause_reason == stale_pause_reason)) [
        | inl e ↦ rw e (rw blank_reason (ground (arith, h)))
        | inr e ↦ rw e (ground (arith, h, e))
      ]

pub normalize_recovery-is_normal : (job : ScoutJob) → is_normal (normalize_recovery job) ≡ true
unfolding normalize_recovery
normalize_recovery-is_normal job =
    without_stale_pause-is_normal (without_metadata job) (without_metadata-none job)

restored :
    (now : String) (job : ScoutJob)
    → is_resolved job.status ≡ true
    → is_normal job ≡ true
    → is_normal (restored_job now job) ≡ true
unfolding is_normal restored_job has_recovery_metadata
restored now job r h = ground (arith, r, h)

acted_if :
    (job : ScoutJob) (b : Bool) (x y : Acted)
    → is_normal (acted_job job x) ≡ true
    → is_normal (acted_job job y) ≡ true
    → is_normal (acted_job job (if b then x else y)) ≡ true
acted_if job true x y p q = p
acted_if job false x y p q = q

deleted-is_resolved : (status : String) → (status == "deleted") ≡ true → is_resolved status ≡ true
unfolding is_resolved lowers_to trim_space trim_left trim_right is_space
deleted-is_resolved status h = rw ((eq_iff status "deleted").0 h) refl

act-is_normal :
    (action now id : String) (job : ScoutJob)
    → is_normal job ≡ true
    → is_normal (acted_job job (act action now id job)) ≡ true
unfolding act dismissed_job retried_job clear_recovery
act-is_normal action now id job h =
    acted_if job (action == "dismiss") _ _
      (acted_if job (job.status == "queued" || job.status == "failed") _ _
        (cleared
          (record job {
            status = "dismissed";
            deleted_from_status = "";
            deleted_at = "";
            last_error = "";
            pause_reason = "";
            pause_until = "";
            updated_at = now;
          })
          refl)
        h)
      (acted_if job (action == "retry" || action == "reset") _ _
        (acted_if job (job.status == "failed" || job.status == "dismissed") _ _
          (unresolved (retried_job now job) live.0) h)
        (acted_if job (action == "restore") _ _
          (elim (Bool-cases (job.status == "deleted")) [
            | inl d ↦ rw d (restored now job (deleted-is_resolved job.status d) h)
            | inr d ↦ rw d h
          ])
          h))

should_reconcile-live :
    (job : ScoutJob) → should_reconcile job ≡ true → is_resolved job.status ≡ false
unfolding should_reconcile is_resolved lowers_to
should_reconcile-live job h = elim (Bool-cases (trim_space job.status == "running")) [
  | inl r ↦ rw ((eq_iff (trim_space job.status) "running").0 r) refl
  | inr r ↦ rw ((eq_iff (trim_space job.status) "failed").0 (ground (arith, h, r))) refl
]

job_behind-is_normal :
    (manifest : Manifest) (job : ScoutJob)
    → is_resolved job.status ≡ false
    → is_normal (job_behind manifest job) ≡ true
unfolding job_behind
job_behind-is_normal manifest job r =
    let status = trim_space manifest.status in
    normal_if (status == "running") _ _ (unresolved _ r) (
      normal_if (status == "paused") _ _ (unresolved _ live.1) (
        normal_if (status == "completed") _ _ (cleared _ refl) (
          normal_if (status == "failed" || status == "blocked") _ _ (unresolved _ live.2) (
            normal_if (trim_space manifest.completed_at == "") _ _ (unresolved job r)
              (unresolved _ live.2)))))

dated-is_normal : (m : Manifest) (j : ScoutJob) → is_normal j ≡ true → is_normal (dated m j) ≡ true
unfolding is_normal dated has_recovery_metadata
dated-is_normal m j h = h

reconcile_with-is_normal :
    (manifest : Option Manifest) (now retry_at : String) (job : ScoutJob)
    → is_resolved job.status ≡ false
    → is_normal (reconcile_with manifest now retry_at job) ≡ true
unfolding requeue_after_stale_cleanup record_stale_recovery
reconcile_with-is_normal none now retry_at job r =
    normal_if (is_stale_cleanup_error job.last_error && is_local_destination job.destination) _ _
      (unresolved _ live.0) (unresolved job r)
reconcile_with-is_normal (some manifest) now retry_at job r =
    normal_if (should_auto_retry job manifest) _ _ (unresolved _ live.0) (
      normal_if (is_stale_cleanup_error manifest.last_error) _ _ (unresolved _ live.0)
        (dated-is_normal manifest (job_behind manifest job) (job_behind-is_normal manifest job r)))

reconcile_run_state-is_normal :
    (manifest : Option Manifest) (now retry_at : String) (job : ScoutJob)
    → is_normal job ≡ true
    → is_normal (reconcile_run_state manifest now retry_at job) ≡ true
unfolding reconcile_run_state
reconcile_run_state-is_normal manifest now retry_at job h =
    elim (Bool-cases (should_reconcile job)) [
      | inl e ↦
          rw e (reconcile_with-is_normal manifest now retry_at job (should_reconcile-live job e))
      | inr e ↦ rw e h
    ]

recover_job-is_normal :
    (can_start : Bool) (manifest : Manifest) (now : String) (job : ScoutJob)
    → is_normal (recovered_job (recover_job can_start manifest now job)) ≡ true
unfolding recover_job record_recovered_run requeue_after_stale_cleanup
recover_job-is_normal can_start manifest now job =
    recovered_if (trim_space manifest.status == "running" && trim_space manifest.last_error == "") _
      _ (unresolved _ live.1)
      (recovered_if (can_resume job manifest && can_start) _ _ (unresolved _ live.1)
        (unresolved _ live.0))
  where
    recovered_if :
        (b : Bool) (x y : Recovery)
        → is_normal (recovered_job x) ≡ true
        → is_normal (recovered_job y) ≡ true
        → is_normal (recovered_job (if b then x else y)) ≡ true
    recovered_if true x y p q = p
    recovered_if false x y p q = q

job_step-is_normal :
    (e : JobEvent) (job : ScoutJob) → is_normal job ≡ true → is_normal (job_step e job) ≡ true
unfolding job_step
job_step-is_normal (asked action now) job h = act-is_normal action now "" job h
job_step-is_normal (looked_up manifest now retry_at) job h =
    reconcile_run_state-is_normal manifest now retry_at job h
job_step-is_normal (restarted can_start manifest now) job h =
    recover_job-is_normal can_start manifest now job
job_step-is_normal normalized job h = normalize_recovery-is_normal job

run_job-is_normal :
    (events : List JobEvent) (job : ScoutJob)
    → is_normal job ≡ true
    → is_normal (run_job events job) ≡ true
unfolding run_job
run_job-is_normal [] job h = h
run_job-is_normal (e ∷ es) job h =
    run_job-is_normal es (job_step e job) (job_step-is_normal e job h)

-- Once its recovery was normalized, a job that is completed, dismissed or deleted has no data of a recovery and no
-- pause for one, behind any sequence of a user's actions, reads of its run, restarts and normalizations.
pub run_job-normalized :
    (events : List JobEvent) (job : ScoutJob)
    → is_normal (run_job events (normalize_recovery job)) ≡ true
run_job-normalized events job =
    run_job-is_normal events (normalize_recovery job) (normalize_recovery-is_normal job)
