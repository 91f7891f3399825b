-- ===== src/Scheduler/Queues/Offers.antt =====
-- internal/gocli/start_scheduler.go: buildServiceQueue, with taskWaitUntilPending, and
-- startWorkPlannedItemDue (internal/gocli/start_work.go). The tasks that the database lists are an argument,
-- `none` for an error, and so is the time that a text parses to.
use mathlib.Core.List.{◌++◌}
use nana.Prelude.{
  ℕ, String, Bool, false, not, ◌&&◌, ◌||◌, Option, none, some, List, [], ◌∷◌, ltb, ◌==◌,
  if◌then◌else◌, lookup, trim_space,
}
use nana.Scheduler.State.{ServiceTask, PlannedItem, WorkState, Task, Coordinator}
use nana.Scheduler.Select.{service_queue}
use nana.Scheduler.Service.{service_task_ready}
use nana.Scheduler.Queues.Identifiers.{parse_scoped_id, listed_item_id}
use nana.Scheduler.Queues.Recovery.{is_scout_derived, recovery_tasks, launch_task}

-- startUITaskSummary, the fields that the coordinator reads.
pub record Listed : Type 0 where
  pub id : String
  pub kind : String

-- startWorkScheduleParsed and `After`.
unfoldable pub is_still_ahead : (String → Option ℕ) → ℕ → String → Bool
is_still_ahead parse_time now text = elim (parse_time text) [ none ↦ false | some t ↦ ltb now t ]

unfoldable pub is_planned_item_due : (String → Option ℕ) → ℕ → PlannedItem → Bool
is_planned_item_due parse_time now item =
    trim_space item.state == "queued"
    && (trim_space item.schedule_at == "" || is_reached (parse_time item.schedule_at))
  where
    is_reached : Option ℕ → Bool
    is_reached none = false
    is_reached (some t) = not (ltb now t)

-- The case "service_task".
unfoldable pub service_task_offered : (String → Option ℕ) → ℕ → Coordinator → ServiceTask → Bool
service_task_offered parse_time now c task =
    task.queue == service_queue
    && task.status == "queued"
    && not (not (task.wait_cycle == "") && task.wait_cycle == c.cycle_id)
    && not (is_still_ahead parse_time now task.wait_until)
    && service_task_ready task c.state

unfoldable pub service_repo_task : ServiceTask → Task
service_repo_task task = record {
  key = task.id;
  queue = task.queue;
  kind = task.kind;
  issue_key = task.issue_key;
  scout_job_id = "";
  planned_item_id = task.planned_item_id;
  scout_role = task.scout_role;
  run_id = task.run_id;
}

abbrev pub service_offer : (String → Option ℕ) → ℕ → Coordinator → Option ServiceTask → Option Task
service_offer parse_time now c none = none
service_offer parse_time now c (some task) =
    if service_task_offered parse_time now c task then some (service_repo_task task) else none

abbrev pub named_offer : (String → Option ℕ) → ℕ → Coordinator → Option String → Option Task
named_offer parse_time now c none = none
named_offer parse_time now c (some task_id) =
    service_offer parse_time now c (lookup task_id (WorkState.service_tasks c.state))

-- The case "planned_item".
abbrev pub planned_offer : (String → Option ℕ) → ℕ → String → Option PlannedItem → Option Task
planned_offer parse_time now item_id none = none
planned_offer parse_time now item_id (some item) =
    if trim_space item.state == "queued"
      && not (is_scout_derived item)
      && is_planned_item_due parse_time now item
    then some (launch_task item_id)
    else none

unfoldable pub service_queue_offer : (String → Option ℕ) → ℕ → Coordinator → Listed → Option Task
service_queue_offer parse_time now c item =
    if item.kind == "service_task"
    then named_offer parse_time now c (parse_scoped_id "service-task:" item.id)
    else if item.kind == "planned_item"
    then (planned_offer parse_time now (listed_item_id item.id)
        (lookup (listed_item_id item.id) (WorkState.planned_items c.state)))
    else none

abbrev pub with_offer : Option Task → List Task → List Task
with_offer none tasks = tasks
with_offer (some task) tasks = task ∷ tasks

unfoldable pub service_offers : (String → Option ℕ) → ℕ → Coordinator → List Listed → List Task
service_offers parse_time now c [] = []
service_offers parse_time now c (item ∷ items) =
    with_offer (service_queue_offer parse_time now c item) (service_offers parse_time now c items)

unfoldable pub build_service_queue :
    (String → Option ℕ) → ℕ → Option (List Listed) → Coordinator → List Task
build_service_queue parse_time now none c = []
build_service_queue parse_time now (some items) c =
    recovery_tasks c ++ service_offers parse_time now c items
