-- ===== src/Scheduler/Slots/Busy.antt =====
-- What counts as a busy worker of one repository.
use nana.Prelude.{
  ℕ, ◌+◌, String, Bool, ◌&&◌, trim_space, List, [], ◌∷◌, ◌==◌, if◌then◌else◌, ◌≡◌, refl, arith,
}
use nana.Scheduler.State.{IssueState, ServiceTask, PlannedItem, ScoutJob, WorkState}
use nana.Scheduler.Slots.{
  count_entries, implementation_in_progress, active_workers, is_in_progress, is_running,
  is_running_service, is_launching,
}

-- The entries of a map that pass a test.
abbrev pub how_many {ℓ} : {V : Type ℓ} → (V → Bool) → List (String × V) → ℕ
how_many test [] = 0
how_many test ((k, v) ∷ m) = (if test v then 1 else 0) + how_many test m

-- The issues in progress, the scout jobs and the service tasks that are running, and the planned items that are
-- being launched.
unfoldable pub busy_workers : WorkState → ℕ
busy_workers state =
    how_many (λ (issue : IssueState). issue.status == "in_progress") state.issues
    + how_many (λ (job : ScoutJob). job.status == "running") state.scout_jobs
    + how_many (λ (task : ServiceTask). task.status == "running" && task.queue == "service")
        state.service_tasks
    + how_many (λ (item : PlannedItem). trim_space item.state == "launching") state.planned_items

count_entries-how_many {ℓ} :
    {V : Type ℓ} (f g : V → Bool) (m : List (String × V))
    → ((v : V) → f v ≡ g v)
    → count_entries f m ≡ how_many g m
count_entries-how_many f g [] h = refl
count_entries-how_many f g ((k, v) ∷ m) h =
    rw (h v) (ground (arith, count_entries-how_many f g m h))

pub active_workers-busy_workers : (state : WorkState) → active_workers state ≡ busy_workers state
unfolding active_workers implementation_in_progress busy_workers
active_workers-busy_workers state =
    rw
      (
        count_entries-how_many is_in_progress (λ i. i.status == "in_progress") state.issues
            (λ i. refl),
        count_entries-how_many is_running (λ j. j.status == "running") state.scout_jobs (λ j. refl),
        count_entries-how_many is_running_service
            (λ t. t.status == "running" && t.queue == "service") state.service_tasks
            (λ t. ground arith),
        count_entries-how_many is_launching (λ p. trim_space p.state == "launching")
            state.planned_items (λ p. refl),
      )
      refl
