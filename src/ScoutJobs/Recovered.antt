-- ===== src/ScoutJobs/Recovered.antt =====
-- What a restart does to the jobs whose runs were cleaned up.
use nana.Prelude.{
  ℕ, ◌+◌, String, Bool, true, false, ◌&&◌, ◌||◌, ltb, ◌==◌, Option, none, some, List, [], ◌∷◌, ◌≡◌,
  ◌⊎◌, inl, inr, refl, ap, ◌∙◌, not, arith, if◌then◌else◌, is_some, trim_space, lookup, put,
  lookup-put, eq_iff,
}
use nana.Prelude.Pairwise.{Pairwise}
use nana.Scheduler.State.{ScoutJob}
use nana.ScoutJobs.Recovery.{
  Manifest, is_local_destination, is_stale_cleanup_error, record_recovered_run,
  requeue_after_stale_cleanup, can_resume, recovered,
}
use nana.ScoutJobs.Stale.{
  Recovery, resumed, requeued, recovered_job, recover_job, resumed_run, index_manifests, Restarted,
  with_recovery, recover_jobs, recover_from_stale_manifests,
}

-- Whether the run of a job goes on: it does already, or it is one of a local job that was cleaned up with
-- iterations left, and that starts again.
unfoldable pub goes_on : Bool → ScoutJob → Manifest → Bool
goes_on starts job manifest =
    (trim_space manifest.last_error == "" && trim_space manifest.status == "running")
    || (starts
        && is_local_destination job.destination
        && is_stale_cleanup_error manifest.last_error
        && ltb manifest.iterations manifest.max_iterations
        && not (trim_space manifest.status == "completed")
        && trim_space job.run_id == trim_space manifest.run_id
        && not (trim_space job.run_id == ""))

-- A job that runs again as the run of the manifest, or waits for a new run.
unfoldable pub IsRevived : Bool → Manifest → ScoutJob → ScoutJob → Type 0
IsRevived goes manifest job next =
    (next.recovery_count ≡ job.recovery_count + 1)
    × (next.last_recovered_run_id ≡ trim_space manifest.run_id)
    × (next.status ≡ (if goes then "running" else "queued"))
    × (next.run_id ≡ (if goes then trim_space manifest.run_id else ""))

abbrev or_later : Option Manifest → Option Manifest → Option Manifest
or_later o none = o
or_later o (some m) = some m

-- The last of the manifests with a run id, without the white space around it, if there is one.
unfoldable pub last_of : String → List Manifest → Option Manifest
last_of run_id [] = none
last_of run_id (m ∷ manifests) =
    let found = not (run_id == "") && trim_space m.run_id == run_id in
    or_later (if found then some m else none) (last_of run_id manifests)

-- The two jobs under a key, in front of a restart and behind it.
unfoldable pub AtRestart :
    (String → Bool) → List Manifest → String × ScoutJob → String × ScoutJob → Type 0
AtRestart can_start manifests a b =
    (a.0 ≡ b.0)
    × (((last_of (trim_space a.1.run_id) manifests ≡ none) × (b.1 ≡ a.1))
        ⊎ ((manifest : Manifest) × (last_of (trim_space a.1.run_id) manifests ≡ some manifest)
            × IsRevived (goes_on (can_start a.0) a.1 manifest) manifest a.1 b.1))

unfoldable pub with_manifest : List Manifest → List (String × ScoutJob) → ℕ
with_manifest manifests [] = 0
with_manifest manifests ((id, job) ∷ jobs) =
    let rest = with_manifest manifests jobs in
    if is_some (last_of (trim_space job.run_id) manifests) then rest + 1 else rest

or_later-none : (o : Option Manifest) → or_later none o ≡ o
or_later-none none = refl
or_later-none (some m) = refl

or_later-or_later :
    (a b c : Option Manifest) → or_later (or_later a b) c ≡ or_later a (or_later b c)
or_later-or_later a b none = refl
or_later-or_later a b (some m) = refl

lookup-one :
    (run_id : String) (m : Manifest) (index : List (String × Manifest))
    → lookup run_id (if trim_space m.run_id == "" then index else put (trim_space m.run_id) m index)
      ≡ or_later
          (lookup run_id index)
          (if not (run_id == "") && trim_space m.run_id == run_id then some m else none)
lookup-one run_id m index =
    let id = trim_space m.run_id in
    ground (arith, eq_iff id "", eq_iff id run_id, eq_iff run_id "", lookup-put id run_id m index)

lookup-index_manifests :
    (run_id : String) (manifests : List Manifest) (index : List (String × Manifest))
    → lookup run_id (index_manifests manifests index)
      ≡ or_later (lookup run_id index) (last_of run_id manifests)
unfolding index_manifests last_of
lookup-index_manifests run_id [] index = refl
lookup-index_manifests run_id (m ∷ ms) index =
    let next = if trim_space m.run_id == "" then index else put (trim_space m.run_id) m index in
    lookup-index_manifests run_id ms next
    ∙ ap (λ o. or_later o (last_of run_id ms)) (lookup-one run_id m index)
    ∙ or_later-or_later (lookup run_id index)
        (if not (run_id == "") && trim_space m.run_id == run_id then some m else none)
        (last_of run_id ms)

goes_on-can_resume :
    (starts : Bool) (job : ScoutJob) (manifest : Manifest)
    → goes_on starts job manifest ≡ (
        (trim_space manifest.status == "running" && trim_space manifest.last_error == "")
        || (can_resume job manifest && starts))
unfolding goes_on can_resume
goes_on-can_resume starts job manifest = ground arith

recover_job-IsRevived :
    (starts : Bool) (manifest : Manifest) (now : String) (job : ScoutJob)
    → IsRevived
        (goes_on starts job manifest)
        manifest
        job
        (recovered_job (recover_job starts manifest now job))
unfolding recover_job record_recovered_run requeue_after_stale_cleanup recovered resumed_run
    IsRevived
recover_job-IsRevived starts manifest now job = rw (goes_on-can_resume starts job manifest) (
    by_flags (trim_space manifest.status == "running" && trim_space manifest.last_error == "")
      (can_resume job manifest && starts))
  where
    by_flags :
        (a b : Bool)
        → IsRevived (a || b) manifest job (
            recovered_job (
              if a
              then resumed (record_recovered_run (resumed_run manifest) now job)
              else if b
              then resumed (record_recovered_run manifest now job)
              else requeued (requeue_after_stale_cleanup manifest now job)))
    by_flags true b = (refl, refl, refl, refl)
    by_flags false true = (refl, refl, refl, refl)
    by_flags false false = (refl, refl, refl, refl)

abbrev Handles : (String → Bool) → List Manifest → List (String × ScoutJob) → Restarted → Type 0
Handles can_start manifests jobs r =
    Pairwise (AtRestart can_start manifests) jobs r.jobs
    × (r.resumed_count + r.requeued_count ≡ with_manifest manifests jobs)

with_recovery-Handles :
    (can_start : String → Bool) (manifests : List Manifest) (manifest : Manifest) (id : String)
    (job : ScoutJob) (jobs : List (String × ScoutJob)) (next : Recovery) (r : Restarted)
    → last_of (trim_space job.run_id) manifests ≡ some manifest
    → IsRevived (goes_on (can_start id) job manifest) manifest job (recovered_job next)
    → Handles can_start manifests jobs r
    → let s = with_recovery id next r in
      Pairwise (AtRestart can_start manifests) ((id, job) ∷ jobs) s.jobs
      × (s.resumed_count + s.requeued_count ≡ with_manifest manifests jobs + 1)
unfolding with_recovery AtRestart
with_recovery-Handles can_start manifests manifest id job jobs (resumed next) r h revived p =
    (((refl, inr (manifest, h, revived)), p.0), ground (arith, p.1))
with_recovery-Handles can_start manifests manifest id job jobs (requeued next) r h revived p =
    (((refl, inr (manifest, h, revived)), p.0), ground (arith, p.1))

Option-cases : (o : Option Manifest) → (o ≡ none) ⊎ ((m : Manifest) × (o ≡ some m))
Option-cases none = inl refl
Option-cases (some m) = inr (m, refl)

module _ (can_start : String → Bool) (manifests : List Manifest) (now : String) where
  recover_jobs-Handles :
      (index : List (String × Manifest)) (jobs : List (String × ScoutJob))
      → ((k : String) → lookup k index ≡ last_of k manifests)
      → Handles can_start manifests jobs (recover_jobs can_start index now jobs)
  unfolding recover_jobs with_manifest AtRestart
  recover_jobs-Handles index [] same = (tt, refl)
  recover_jobs-Handles index ((id, job) ∷ jobs) same =
      let rest = recover_jobs-Handles index jobs same in
      let at_job = same (trim_space job.run_id) in
      elim (Option-cases (last_of (trim_space job.run_id) manifests)) [
        | inl h ↦ rw (at_job, h) (((refl, inl (h, refl)), rest.0), rest.1)
        | inr (m, h) ↦
            rw (at_job, h)
              (with_recovery-Handles can_start manifests m id job jobs
                (recover_job (can_start id) m now job) (recover_jobs can_start index now jobs) h
                (recover_job-IsRevived (can_start id) m now job) rest)
      ]

-- At a restart, each job whose run id is that of one of the manifests, white space around the two
-- aside, is changed by the last of them, whatever its status was, and its recoveries are counted up. It
-- is set to running as that run, if the manifest is running with no error, or if the job is local, the
-- manifest was cleaned up as stale, is not completed and has iterations left, and the run starts; else
-- it is queued without a run. Each other job, and each without a run id, stays; and the number of
-- resumed jobs and that of requeued jobs add up to the number of jobs with a manifest.
pub recover_from_stale_manifests-revived :
    (can_start : String → Bool) (manifests : List Manifest) (now : String)
    (jobs : List (String × ScoutJob))
    → let r = recover_from_stale_manifests can_start manifests now jobs in
      Pairwise (AtRestart can_start manifests) jobs r.jobs
      × (r.resumed_count + r.requeued_count ≡ with_manifest manifests jobs)
unfolding recover_from_stale_manifests lookup
recover_from_stale_manifests-revived can_start manifests now jobs =
    recover_jobs-Handles can_start manifests now (index_manifests manifests []) jobs
      (λ k. lookup-index_manifests k manifests [] ∙ or_later-none (last_of k manifests))
