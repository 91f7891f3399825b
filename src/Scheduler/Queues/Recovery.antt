-- ===== src/Scheduler/Queues/Recovery.antt =====
-- internal/gocli/start_scheduler.go: the planned launches that buildServiceQueue recovers, with
-- startWorkPlannedItemLooksScoutDerived (internal/gocli/scout_jobs.go), and compareStartUITaskSummary and
-- taskPriorityOrDefault (internal/gocli/start_tasks.go). All of them have the status running, so that the
-- comparison of the status has no effect on their order.
use Prim.Native.String.{◌++◌, compare}
use text.Mathlib.Text.{is_lt, is_le}
use nana.Prelude.{
  ℕ, String, Bool, true, false, not, ◌&&◌, ◌||◌, Option, none, some, List, [], ◌∷◌, eqb, ltb, ◌==◌,
  if◌then◌else◌, trim_space,
}
use nana.Scheduler.State.{
  planned_launch, PlannedItem, WorkState, Task, Coordinator, start_service_task_key,
}
use nana.Scheduler.Select.{service_queue}
use nana.Scheduler.Sync.Due.{is_running}
use nana.Scheduler.Queues.Identifiers.{cut_prefix, contains}

abbrev has_prefix : Option String → Bool
has_prefix none = false
has_prefix (some rest) = true

unfoldable pub is_scout_derived : PlannedItem → Bool
is_scout_derived item =
    has_prefix (cut_prefix "Implement scout proposal: " (trim_space item.title))
    && contains "Source artifact: " (trim_space item.description)
    && contains "Scout role: " (trim_space item.description)

unfoldable pub is_recoverable : Coordinator → PlannedItem → Bool
is_recoverable c item =
    not (is_scout_derived item)
    && trim_space item.state == "launching"
    && trim_space item.launch_run_id == ""
    && not (is_running (start_service_task_key planned_launch item.id) c)

unfoldable pub recovery_items : Coordinator → List (String × PlannedItem) → List PlannedItem
recovery_items c [] = []
recovery_items c ((id, item) ∷ items) =
    let rest = recovery_items c items in if is_recoverable c item then item ∷ rest else rest

abbrev pub task_priority_or_default : ℕ → ℕ
task_priority_or_default n = if ltb 5 n then 3 else n

-- The comparison is not positive.
unfoldable pub item_at_most : PlannedItem → PlannedItem → Bool
item_at_most a b =
    let left = task_priority_or_default a.priority in
    let right = task_priority_or_default b.priority in
    let left_schedule = trim_space a.schedule_at in
    let right_schedule = trim_space b.schedule_at in
    if not (eqb left right)
    then ltb left right
    else if not (left_schedule == right_schedule)
    then (not (left_schedule == "")
        && (right_schedule == "" || is_lt (compare left_schedule right_schedule)))
    else if not (a.updated_at == b.updated_at)
    then is_lt (compare b.updated_at a.updated_at)
    else is_le (compare ("planned-item:" ++ a.id) ("planned-item:" ++ b.id))

unfoldable pub insert_item : PlannedItem → List PlannedItem → List PlannedItem
insert_item a [] = a ∷ []
insert_item a (b ∷ bs) =
    let rest = insert_item a bs in if item_at_most a b then a ∷ b ∷ bs else b ∷ rest

unfoldable pub sort_items : List PlannedItem → List PlannedItem
sort_items [] = []
sort_items (a ∷ items) = insert_item a (sort_items items)

unfoldable pub launch_task : String → Task
launch_task id = record {
  key = start_service_task_key planned_launch id;
  queue = service_queue;
  kind = planned_launch;
  issue_key = "";
  scout_job_id = "";
  planned_item_id = id;
  scout_role = "";
  run_id = "";
}

abbrev pub launch_tasks : List PlannedItem → List Task
launch_tasks [] = []
launch_tasks (item ∷ items) = launch_task item.id ∷ launch_tasks items

unfoldable pub recovery_tasks : Coordinator → List Task
recovery_tasks c = launch_tasks (sort_items (recovery_items c (WorkState.planned_items c.state)))
