-- ===== src/Scheduler/Workers/Coordinators.antt =====
-- internal/gocli/start_scheduler.go: nextTask, and the coordinators of the scheduler as the coordinators
-- of the loop. What refreshRepoState or reloadPersistedState read, with the queues that are built of
-- it, is a list of loads, one for each call of nextTask; the errors of writes and the times are
-- arguments.
use nana.Prelude.{String, Option, none, some, List, [], ◌∷◌, put}
use nana.Scheduler.State.{WorkState, Task, Coordinator, TaskResult, StepError}
use nana.Scheduler.Select.{Selection, select_next_task}
use nana.Scheduler.Begin.{mark_task_started}
use nana.Scheduler.Outcome.{apply_task_result}
use nana.Scheduler.Workers.{Answer, ready, failing, nothing, Operations, delete}

pub data CycleError : Type 0 where
  unread : String → CycleError
  step_error : StepError → CycleError

pub data Load : Type 0 where
  loaded : WorkState → List Task → List Task → Load
  unloaded : String → Load

abbrev pub offered : Option Task → Answer Task CycleError
offered none = nothing
offered (some t) = ready t

unfoldable pub next_task : Load → Coordinator → Coordinator × Answer Task CycleError
unfolding select_next_task
next_task (unloaded e) c = (c, failing (unread e))
next_task (loaded state service implementation) c =
    let s = select_next_task service implementation (record c { state = state }) in
    (Selection.coordinator s, offered (Selection.task s))

pub record Fed : Type 0 where
  pub coordinator : Coordinator
  pub loads : List Load

unfoldable pub next_fed : List Load → Coordinator → Fed × Answer Task CycleError
unfolding next_task
next_fed [] c = (record { coordinator = c; loads = [] }, nothing)
next_fed (load ∷ loads) c =
    let (d, answer) = next_task load c in (record { coordinator = d; loads = loads }, answer)

abbrev pub as_cycle_error : Option StepError → Option CycleError
as_cycle_error none = none
as_cycle_error (some e) = some (step_error e)

module _ (write again : Option String) (now : String) where
  unfoldable pub mark_fed : Task → Fed → Fed × Option CycleError
  unfolding mark_task_started
  mark_fed t f =
      let (d, err) = mark_task_started write now t f.coordinator in
      (record f { coordinator = d }, as_cycle_error err)

  unfoldable pub apply_fed : Task → TaskResult → Fed → Fed × Option CycleError
  unfolding apply_task_result
  apply_fed t result f =
      let (d, err) = apply_task_result write again now (record result { task = t }) f.coordinator in
      (record f { coordinator = d }, as_cycle_error err)

abbrev pub with_running : List (String × Task) → Fed → Fed
with_running running f = record f { coordinator = record f.coordinator { running = running } }

-- The errors of completeRun and of finalizeStartRepoCycle are arguments too.
abbrev pub coordinator_operations :
    Option String
    → Option String
    → String
    → (Fed → Option CycleError)
    → (String → Option CycleError)
    → Operations Fed Task TaskResult CycleError
coordinator_operations write again now complete_run finalize = record {
  next_task = λ f. next_fed f.loads f.coordinator;
  mark_started = mark_fed write again now;
  add_running = λ t f. with_running (put t.key t f.coordinator.running) f;
  delete_running = λ t f. with_running (delete t.key f.coordinator.running) f;
  apply_result = apply_fed write again now;
  complete_run = complete_run;
  finalize = finalize;
}
