-- ===== src/Scheduler/Run.antt =====
-- What the coordinator of a repository does to its state in one run, as events in the order of their
-- locks: markTaskStarted, applyTaskResult and upsertServiceTask of internal/gocli/start_scheduler.go.
-- The state in memory passes from one event to the next, also if its write fails: that it is read
-- from the file again, which another program may have written, is not modelled.
use nana.Prelude.{
  ℕ, suc, ◌+◌, String, Bool, true, false, Option, none, some, List, [], ◌∷◌, ◌==◌, ◌&&◌,
  if◌then◌else◌, ◌≡◌, ◌≢◌, inl, inr, refl, arith, eq_iff, Bool-cases,
}
use nana.Scheduler.State.{
  TaskKind, implementation, scout_job, planned_launch, issue_sync, scout, triage, reconcile, other,
  ServiceTask, WorkState, Task, Coordinator, TaskResult, task_at, put_task, written,
}
use nana.Scheduler.Stored.{task_at-put_task}
use nana.Scheduler.Begin.{begin, mark_task_started}
use nana.Scheduler.Outcome.{apply_task_result}
use nana.Scheduler.Service.{upsert_service_task, is_kept}
use nana.Scheduler.Attempts.{
  named, IsWellFormed, Same, IsNamed-as, put_task-Same, Same-refl, IsNamed-if,
}
use nana.Scheduler.Kept.{apply_task_result-Same}

pub data Event : Type 0 where
  started : Option String → String → Task → Event
  finished : Option String → Option String → String → TaskResult → Event
  queued : ServiceTask → String → Event

unfoldable pub step : Event → Coordinator → Coordinator
step (started write now task) c = (mark_task_started write now task c).0
step (finished write again now result) c = (apply_task_result write again now result c).0
step (queued desired now) c = (upsert_service_task desired now c).0

unfoldable pub run_events : List Event → Coordinator → Coordinator
unfolding step
run_events [] c = c
run_events (e ∷ es) c = run_events es (step e c)

-- The kinds whose start counts an attempt of the service task.
abbrev pub is_service : TaskKind → Bool
is_service implementation = false
is_service scout_job = false
is_service planned_launch = false
is_service _ = true

unfoldable pub starts : String → List Event → ℕ
starts key [] = 0
starts key (started write now task ∷ es) =
    let rest = starts key es in if is_service task.kind && task.key == key then suc rest else rest
starts key (finished write again now result ∷ es) = starts key es
starts key (queued desired now ∷ es) = starts key es

upsert-Same :
    (desired : ServiceTask) (now : String) (c : Coordinator)
    → Same c (upsert_service_task desired now c).0
unfolding upsert_service_task
upsert-Same desired now c =
    elim (Bool-cases (is_kept desired.kind (task_at desired.id c.state) desired)) [
      | inl h ↦ rw h (Same-refl c)
      | inr h ↦ rw h (put_task-Same desired.id _ c (named refl) (λ g. refl))
    ]

-- A start keeps the names, and counts one attempt of its own key.
record Counts (kind : TaskKind) (own : String) (a b : WorkState) : Type 0 where
  names : IsWellFormed a → IsWellFormed b
  attempts :
      (key : String)
      → (task_at key b).attempts ≡ (
          if is_service kind && own == key
          then suc (task_at key a).attempts
          else (task_at key a).attempts)

-- Of a start that counts: the task is stored again with one attempt more.
service-Counts :
    (kind : TaskKind) (own : String) (v : ServiceTask) (c : Coordinator)
    → is_service kind ≡ true
    → v.id ≡ (task_at own c.state).id
    → v.attempts ≡ (task_at own c.state).attempts + 1
    → Counts kind own c.state (Coordinator.state (put_task own v c))
service-Counts kind own v c s i a = record {
  names = λ w j.
      rw (task_at-put_task own j v c)
        (IsNamed-if own j v (task_at j c.state) (IsNamed-as (w own) i) (w j));
  attempts = λ j. ground (arith, task_at-put_task own j v c, eq_iff own j, s, a);
}

begin-Counts :
    (kind : TaskKind) (now : String) (task : Task) (c : Coordinator)
    → Counts kind task.key c.state (Coordinator.state (begin kind now task c))
unfolding begin put_task task_at
begin-Counts implementation now task c = record { names = λ w. w; attempts = λ j. refl }
begin-Counts scout_job now task c = record { names = λ w. w; attempts = λ j. refl }
begin-Counts planned_launch now task c = record { names = λ w. w; attempts = λ j. refl }
begin-Counts issue_sync now task c = service-Counts issue_sync task.key _ c refl refl refl
begin-Counts scout now task c = service-Counts scout task.key _ c refl refl refl
begin-Counts triage now task c = service-Counts triage task.key _ c refl refl refl
begin-Counts reconcile now task c = service-Counts reconcile task.key _ c refl refl refl
begin-Counts (other t) now task c = service-Counts (other t) task.key _ c refl refl refl

mark-Counts :
    (write : Option String) (now : String) (task : Task) (c : Coordinator)
    → Counts task.kind task.key c.state (Coordinator.state (mark_task_started write now task c).0)
unfolding mark_task_started written
mark-Counts none now task c = begin-Counts task.kind now task c
mark-Counts (some e) now task c = begin-Counts task.kind now task c

step-IsWellFormed :
    (e : Event) (c : Coordinator)
    → IsWellFormed c.state
    → IsWellFormed (Coordinator.state (step e c))
unfolding step
step-IsWellFormed (started write now task) c w = Counts.names (mark-Counts write now task c) w
step-IsWellFormed (finished write again now result) c w =
    Same.names (apply_task_result-Same write again now result c w) w
step-IsWellFormed (queued desired now) c w = Same.names (upsert-Same desired now c) w

step-starts :
    (e : Event) (c : Coordinator) (key : String)
    → IsWellFormed c.state
    → key ≢ ""
    → (task_at key (Coordinator.state (step e c))).attempts
      ≡ (task_at key c.state).attempts + starts key (e ∷ [])
unfolding step starts
step-starts (started write now task) c key w h =
    ground (arith, Counts.attempts (mark-Counts write now task c) key)
step-starts (finished write again now result) c key w h =
    omega (arith, Same.attempts (apply_task_result-Same write again now result c w) key h)
step-starts (queued desired now) c key w h =
    omega (arith, Same.attempts (upsert-Same desired now c) key h)

starts-cons :
    (key : String) (e : Event) (es : List Event)
    → starts key (e ∷ es) ≡ starts key (e ∷ []) + starts key es
unfolding starts
starts-cons key (started write now task) es = ground arith
starts-cons key (finished write again now result) es = omega arith
starts-cons key (queued desired now) es = omega arith

-- Any sequence of starts, ends and upserts, with any results, and whether the writes of the state
-- file succeed or not, keeps every service task named by the key that it is stored under, or unnamed.
pub run_events-IsWellFormed :
    (es : List Event) (c : Coordinator)
    → IsWellFormed c.state
    → IsWellFormed (Coordinator.state (run_events es c))
unfolding run_events
run_events-IsWellFormed [] c w = w
run_events-IsWellFormed (e ∷ es) c w =
    run_events-IsWellFormed es (step e c) (step-IsWellFormed e c w)

-- From a state whose service tasks are named by their keys, or unnamed, any such sequence adds to the
-- attempts of a key that is not empty the number of the starts of that key in it: no end and no
-- upsert, also not one of another generation or fingerprint, ever takes an attempt back.
pub run_events-starts :
    (es : List Event) (c : Coordinator) (key : String)
    → IsWellFormed c.state
    → key ≢ ""
    → (task_at key (Coordinator.state (run_events es c))).attempts
      ≡ (task_at key c.state).attempts + starts key es
unfolding run_events starts
run_events-starts [] c key w h = omega arith
run_events-starts (e ∷ es) c key w h = omega (
  arith,
  run_events-starts es (step e c) key (step-IsWellFormed e c w) h,
  step-starts e c key w h,
  starts-cons key e es,
)
