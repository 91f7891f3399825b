-- ===== src/Scheduler/Service.antt =====
-- internal/gocli/start_scheduler.go: upsertServiceTask, serviceTaskReady, triageDependencyKeys and
-- serviceTaskPriority, and the end of a task that these read.
use nana.Prelude.{
  ℕ, String, Bool, true, false, not, ◌&&◌, ◌||◌, List, [], ◌∷◌, leb, ◌==◌, if◌then◌else◌,
}
use nana.Scheduler.State.{
  TaskKind, issue_sync, scout, triage, implementation, scout_job, reconcile, planned_launch, other,
  ServiceTask, WorkState, Coordinator, put_task, task_at, service_task_retry_limit,
}

abbrev same_run : ServiceTask → ServiceTask → Bool
same_run current desired =
    current.fingerprint == desired.fingerprint && current.run_id == desired.run_id

abbrev attempts_used : ServiceTask → ServiceTask → Bool
attempts_used current desired = leb (service_task_retry_limit desired.kind) current.attempts

-- The two guards of a scout, and the four of the other kinds of a service task.
abbrev scout_kept : ServiceTask → ServiceTask → Bool
scout_kept current desired =
    let same = not (current.id == "") && current.generation == desired.generation in
    let failed = current.status == "failed" in
    (same && not failed) || (same && failed && attempts_used current desired)

abbrev service_kept : ServiceTask → ServiceTask → Bool
service_kept current desired =
    let known = not (current.id == "") in
    let same = same_run current desired in
    (known && current.status == "running")
    || (known && current.status == "completed" && same)
    || (known && current.status == "queued" && same)
    || (known && current.status == "failed" && same && attempts_used current desired)

-- The switch of upsertServiceTask: whether the task that is stored stays.
unfoldable pub is_kept : TaskKind → ServiceTask → ServiceTask → Bool
is_kept scout current desired = scout_kept current desired
is_kept issue_sync current desired = service_kept current desired
is_kept triage current desired = service_kept current desired
is_kept reconcile current desired = service_kept current desired
is_kept planned_launch current desired = service_kept current desired
is_kept implementation current desired = false
is_kept scout_job current desired = false
is_kept (other t) current desired = false

abbrev pub merged_task : String → ServiceTask → ServiceTask → ServiceTask
merged_task now current desired = record desired {
  attempts = current.attempts;
  last_error = current.last_error;
  result_summary = current.result_summary;
  wait_cycle = current.wait_cycle;
  wait_until = current.wait_until;
  updated_at = now;
  started_at = "";
  completed_at = "";
}

unfoldable pub upsert_service_task : ServiceTask → String → Coordinator → Coordinator × Bool
upsert_service_task desired now c =
    let current = task_at desired.id c.state in
    if is_kept desired.kind current desired
    then (c, false)
    else (put_task desired.id (merged_task now current desired) c, true)

unfoldable pub is_dependency_met : String → WorkState → Bool
is_dependency_met key state =
    let dependency = task_at key state in
    not (dependency.id == "") && dependency.status == "completed"

abbrev pub all_met : List String → WorkState → Bool
all_met [] state = true
all_met (key ∷ keys) state = is_dependency_met key state && all_met keys state

unfoldable pub service_task_ready : ServiceTask → WorkState → Bool
service_task_ready task state = all_met task.dependency_keys state

unfoldable pub triage_dependency_keys : String → WorkState → List String
triage_dependency_keys sync_task_id state =
    let task = task_at sync_task_id state in
    if sync_task_id == ""
    then []
    else if task.id == ""
    then []
    else if task.status == "completed"
    then []
    else sync_task_id ∷ []

unfoldable pub service_task_priority : TaskKind → ℕ
service_task_priority reconcile = 0
service_task_priority issue_sync = 1
service_task_priority planned_launch = 2
service_task_priority triage = 3
service_task_priority scout = 4
service_task_priority _ = 5
