-- ===== src/Scheduler/Slots.antt =====
-- internal/gocli/start_scheduler.go: the free workers of one repository, and the loop of run that fills
-- them, with startWorkImplementationInProgress of internal/gocli/start_work.go.
use nana.Prelude.{
  ℕ, zero, suc, ◌+◌, ◌-◌, String, Bool, true, false, ◌&&◌, Option, none, some, List, [], ◌∷◌, ◌++◌,
  ◌==◌, if◌then◌else◌, trim_space, put,
}
use nana.Scheduler.State.{
  IssueState, ServiceTask, PlannedItem, ScoutJob, WorkState, Task, Coordinator, StepError,
}
use nana.Scheduler.Select.{Selection, select_next_task, service_queue}
use nana.Scheduler.Begin.{mark_task_started}
pub mod Bounds
mod Busy
mod Tests

module _ {ℓ} {V : Type ℓ} (test : V → Bool) where
  abbrev pub count_entries : List (String × V) → ℕ
  count_entries [] = 0
  count_entries ((k, v) ∷ m) = let rest = count_entries m in if test v then suc rest else rest

abbrev pub is_in_progress : IssueState → Bool
is_in_progress issue = issue.status == "in_progress"

abbrev pub is_running : ScoutJob → Bool
is_running job = job.status == "running"

abbrev pub is_running_service : ServiceTask → Bool
is_running_service task = task.queue == service_queue && task.status == "running"

abbrev pub is_launching : PlannedItem → Bool
is_launching item = trim_space item.state == "launching"

-- startWorkImplementationInProgress, where there is a state.
unfoldable pub implementation_in_progress : WorkState → ℕ
implementation_in_progress state =
    count_entries is_in_progress state.issues + count_entries is_running state.scout_jobs

unfoldable pub active_workers : WorkState → ℕ
unfolding implementation_in_progress
active_workers state =
    implementation_in_progress state
    + count_entries is_running_service state.service_tasks
    + count_entries is_launching state.planned_items

-- availableWorkerSlots; where it is negative, run reads it as zero.
unfoldable pub available_worker_slots : ℕ → WorkState → ℕ
available_worker_slots parallel state = parallel - active_workers state

pub record Filled : Type 0 where
  pub coordinator : Coordinator
  pub launched : List Task
  pub error : Option StepError

abbrev pub with_task : Task → Coordinator → Coordinator
with_task task c = record c { running = put task.key task c.running }

abbrev pub launched_behind : Task → Filled → Filled
launched_behind task f = record f { launched = task ∷ f.launched }

-- The loop over the free workers. What the write of the state returns may be another for each task.
unfoldable pub fill_slots :
    (Task → Option String) → String → ℕ → List Task → List Task → Coordinator → Filled
fill_slots write now zero service implementation c = record {
  coordinator = c;
  launched = [];
  error = none;
}
fill_slots write now (suc available) service implementation c =
    let s = select_next_task service implementation c in
    elim (Selection.task s) [
      | none ↦ record { coordinator = Selection.coordinator s; launched = []; error = none }
      | some task ↦
          let (d, err) = mark_task_started (write task) now task (Selection.coordinator s) in
          elim err [
            | some e ↦ record { coordinator = d; launched = []; error = some e }
            | none ↦ launched_behind task (
                fill_slots write now available (Selection.service s) (Selection.implementation s)
                  (with_task task d))
          ]
    ]

-- One turn of run up to the next completion.
unfoldable pub fill_available :
    (Task → Option String) → String → ℕ → List Task → List Task → Coordinator → Filled
fill_available write now parallel service implementation c =
    fill_slots write now (available_worker_slots parallel c.state) service implementation c
