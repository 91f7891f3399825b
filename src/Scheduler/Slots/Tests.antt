-- ===== src/Scheduler/Slots/Tests.antt =====
-- One free worker and two tasks.
use nana.Prelude.{
  false, ◌≤◌, ◌+◌, ◌-◌, String, none, List, [], ◌∷◌, ◌≡◌, refl, lookup, put, length, leb,
  if◌then◌else◌, trim_space, trim_left, trim_right, is_space,
}
use nana.Scheduler.State.{scout, Task, Coordinator, written, task_at, zero_task, put_task}
use nana.Scheduler.Begin.{begin, mark_task_started}
use nana.Scheduler.Select.{select_next_task}
use nana.Scheduler.Slots.{
  implementation_in_progress, active_workers, available_worker_slots, Filled, fill_slots,
  fill_available,
}
use nana.Scheduler.Slots.Busy.{busy_workers}
use nana.Scheduler.Slots.Bounds.{fill_available-bound}

abbrev scout_task : String → Task
scout_task role = record {
  key = role;
  queue = "service";
  kind = scout;
  issue_key = "";
  scout_job_id = "";
  planned_item_id = "";
  scout_role = role;
  run_id = "";
}

abbrev coordinator : Coordinator
coordinator = record {
  repo_slug = "o/r";
  cycle_id = "c1";
  state = record {
    issues = [];
    service_tasks =
        ("ui", record zero_task { id = "ui"; queue = "service"; status = "running" })
        ∷ ("dev", record zero_task { id = "dev"; queue = "service"; status = "queued" })
        ∷ [];
    planned_items = [];
    scout_jobs = [];
  };
  running = [];
  scout_roles = [];
  next_queue = "service";
  refresh_state = false;
  started_issue_numbers = [];
  service_started_count = 0;
  impl_started_count = 0;
}

abbrev two_tasks : List Task
two_tasks = scout_task "dev" ∷ scout_task "perf" ∷ []

one_launched :
    (length (Filled.launched (fill_available (λ t. none) "t1" 2 two_tasks [] coordinator)) ≡ 1)
    × (active_workers (
          Coordinator.state
            (Filled.coordinator (fill_available (λ t. none) "t1" 2 two_tasks [] coordinator)))
        ≡ 2)
unfolding fill_available fill_slots available_worker_slots active_workers implementation_in_progress
    select_next_task mark_task_started begin written put_task task_at lookup put trim_space
    trim_left trim_right is_space
one_launched = (refl, refl)

abbrev one_turn : Filled
one_turn = fill_available (λ t. none) "t1" 2 two_tasks [] coordinator

fill_available-bound_example :
    (busy_workers (Coordinator.state one_turn.coordinator)
      ≤ (if leb (busy_workers coordinator.state) 2 then 2 else busy_workers coordinator.state))
    × (length one_turn.launched ≤ 2 - busy_workers coordinator.state)
    × (length (Coordinator.running one_turn.coordinator) ≤ (2 - busy_workers coordinator.state) + 0)
fill_available-bound_example = fill_available-bound (λ t. none) "t1" 2 two_tasks [] coordinator
