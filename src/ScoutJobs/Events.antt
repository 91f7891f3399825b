-- ===== src/ScoutJobs/Events.antt =====
-- The events that change the job of a scout, and the jobs whose recovery is normalized.
use nana.Prelude.{
  String, Bool, true, false, not, ◌&&◌, ◌||◌, Option, List, [], ◌∷◌, ◌==◌, if◌then◌else◌,
  trim_space, trim_left, trim_right, is_space, ◌≡◌, refl,
}
use nana.Queue.Priority.{lowers_to}
use nana.Scheduler.State.{ScoutJob}
use nana.Scheduler.Launch.{clear_recovery}
use nana.ScoutJobs.Recovery.{
  Manifest, stale_pause_reason, is_resolved, has_recovery_metadata, normalize_recovery,
}
use nana.ScoutJobs.Actions.{Acted, refused, acted, act}
use nana.ScoutJobs.Stale.{reconcile_run_state, recovered_job, recover_job}

unfoldable pub is_normal : ScoutJob → Bool
is_normal job =
    not (is_resolved job.status)
    || (not (has_recovery_metadata job) && not (trim_space job.pause_reason == stale_pause_reason))

-- What happens to a job: a user's action, the state of its run, a restart, and the normalization of the
-- state.
pub data JobEvent : Type 0 where
  asked : String → String → JobEvent
  looked_up : Option Manifest → String → String → JobEvent
  restarted : Bool → Manifest → String → JobEvent
  normalized : JobEvent

abbrev pub acted_job : ScoutJob → Acted → ScoutJob
acted_job job (refused e) = job
acted_job job (acted next) = next

unfoldable pub job_step : JobEvent → ScoutJob → ScoutJob
job_step (asked action now) job = acted_job job (act action now "" job)
job_step (looked_up manifest now retry_at) job = reconcile_run_state manifest now retry_at job
job_step (restarted can_start manifest now) job =
    recovered_job (recover_job can_start manifest now job)
job_step normalized job = normalize_recovery job

unfoldable pub run_job : List JobEvent → ScoutJob → ScoutJob
run_job [] job = job
run_job (e ∷ es) job = run_job es (job_step e job)

pub unresolved : (job : ScoutJob) → is_resolved job.status ≡ false → is_normal job ≡ true
unfolding is_normal
unresolved job h = rw h refl

pub cleared_metadata : (job : ScoutJob) → has_recovery_metadata (clear_recovery job) ≡ false
unfolding has_recovery_metadata clear_recovery trim_space trim_left trim_right
cleared_metadata job = refl

pub cleared : (job : ScoutJob) → job.pause_reason ≡ "" → is_normal (clear_recovery job) ≡ true
unfolding is_normal trim_space trim_left trim_right has_recovery_metadata clear_recovery
cleared job p = rw p (any_or (is_resolved job.status))
  where
    any_or : (b : Bool) → (not b || true) ≡ true
    any_or true = refl
    any_or false = refl

-- The statuses that are not resolved.
pub live :
    (is_resolved "queued" ≡ false)
    × (is_resolved "running" ≡ false)
    × (is_resolved "failed" ≡ false)
unfolding is_resolved lowers_to trim_space trim_left trim_right is_space
live = (refl, refl, refl)

pub normal_if :
    (b : Bool) (x y : ScoutJob)
    → is_normal x ≡ true
    → is_normal y ≡ true
    → is_normal (if b then x else y) ≡ true
normal_if true x y p q = p
normal_if false x y p q = q
