-- ===== src/Scheduler/Queues/Tests.antt =====
-- The sync of the service tasks and the queues behind it on concrete states.
use nana.Prelude.{
  cut_at, ℕ, String, true, Option, none, some, [], ◌∷◌, List, ◌≡◌, refl, pos, lookup, trim_space,
}
use nana.Prelude.{atoi}
use nana.Queue.Order.{Options}
use nana.Scheduler.State.{
  reconcile, planned_launch, Task, Coordinator, zero_task, zero_issue, zero_job, task_at,
  start_service_task_key,
}
use nana.Scheduler.Sync.{stored, active_owners, sync_service_tasks, sync_tasks}
use nana.Scheduler.Sync.Due.{is_running}
use nana.Scheduler.Sync.Turn.{is_settled}
use nana.Scheduler.Sync.Settled.{sync_service_tasks-is_settled}
use nana.Scheduler.Sync.Requeued.{is_in_flight, is_waiting}
use nana.Scheduler.Queues.Identifiers.{
  trim_prefix, cut_prefix, parse_scoped_id, parse_issue_id, contains,
}
use nana.Scheduler.Queues.Offers.{Listed, build_service_queue}
use nana.Scheduler.Queues.Implementation.{build_implementation_tasks}
use nana.Scheduler.Queues.Again.{has_key, is_listed, is_running-build_service_queue}
use nana.Scheduler.Queues.Sound.{all_sound, build_implementation_tasks-all_sound}

abbrev no_time : String → Option ℕ
no_time text = none

-- The identifiers of the database.
identifiers :
    (parse_scoped_id "service-task:" "service-task:o/r:reconcile:7" ≡ some "reconcile:7")
    × (parse_issue_id "issue:o/r#12" ≡ some (pos 12))
    × (parse_issue_id "issue:o/r#1#2" ≡ none)
    × (contains "role: " "Scout role: dev" ≡ true)
unfolding parse_scoped_id parse_issue_id contains cut_at trim_space trim_prefix cut_prefix atoi
identifiers = (refl, refl, refl, refl)

abbrev reconcile_7 : Task
reconcile_7 = record {
  key = "reconcile:7";
  queue = "service";
  kind = reconcile;
  issue_key = "7";
  scout_job_id = "";
  planned_item_id = "";
  scout_role = "";
  run_id = "";
}

-- A worker has the reconcile of the issue 7, a launch is left, and the issue 8 and a scout job can be run.
abbrev busy : Coordinator
busy = record {
  repo_slug = "o/r";
  cycle_id = "c1";
  state = record {
    issues =
        ("7", record zero_issue { source_number = 7; status = "reconciling" })
        ∷ (
          "8",
          record zero_issue {
            source_number = 8;
            fork_number = 3;
            work_type = "feature";
            state = "open";
            status = "queued";
            priority_source = "manual_label";
          },
        )
        ∷ [];
    service_tasks =
        (
          "reconcile:7",
          record zero_task {
            id = "reconcile:7";
            kind = reconcile;
            queue = "service";
            status = "running";
            issue_key = "7";
            attempts = 1;
          },
        )
        ∷ ("planned-launch:p", record zero_task { id = "planned-launch:p"; kind = planned_launch })
        ∷ [];
    planned_items = [];
    scout_jobs =
        ("j1", record zero_job { status = "queued"; destination = "local"; work_type = "feature" })
        ∷ [];
  };
  running = ("reconcile:7", reconcile_7) ∷ [];
  scout_roles = "dev" ∷ [];
  next_queue = "service";
  refresh_state = true;
  started_issue_numbers = [];
  service_started_count = 1;
  impl_started_count = 0;
}

abbrev listed_tasks : List Listed
listed_tasks =
    record { id = "service-task:o/r:reconcile:7"; kind = "service_task" }
    ∷ record { id = "issue:o/r#8"; kind = "issue" }
    ∷ record { id = "scout-job:o/r:j1"; kind = "scout_job" }
    ∷ []

abbrev automatic_options : Options
automatic_options = record { implement_mode = "auto"; max_open_pr = 2 }

sync_service_tasks-is_settled_example :
    is_settled ("o/r:9" ∷ []) "o/r" ("dev" ∷ []) (
      task_at "planned-launch:p" (
        Coordinator.state
          (sync_service_tasks (stored []) none (active_owners ("o/r:9" ∷ [])) "auto" "t1" busy).0))
    ≡ true
sync_service_tasks-is_settled_example =
    sync_service_tasks-is_settled (stored []) none ("o/r:9" ∷ []) "auto" "t1" "planned-launch:p"
      busy refl

busy_7 :
    ((task_at (start_service_task_key reconcile "7") busy.state).kind ≡ reconcile)
    × (is_in_flight
          (start_service_task_key reconcile "7")
          (task_at (start_service_task_key reconcile "7") busy.state)
        ≡ true)
    × (is_running (start_service_task_key reconcile "7") busy ≡ true)
    × (is_listed (start_service_task_key reconcile "7") listed_tasks ≡ true)
unfolding task_at lookup is_in_flight is_waiting is_running is_listed start_service_task_key
    parse_scoped_id cut_at trim_space trim_prefix cut_prefix
busy_7 = (refl, refl, refl, refl)

is_running-build_service_queue_example :
    let synced = sync_tasks "auto" [] "t1" busy in
    (is_running (start_service_task_key reconcile "7") synced ≡ true)
    × (has_key
          (start_service_task_key reconcile "7")
          (build_service_queue no_time 5 (some listed_tasks) synced)
        ≡ true)
is_running-build_service_queue_example =
    is_running-build_service_queue no_time 5 "auto" [] "t1" "7" listed_tasks busy refl busy_7.0
      busy_7.1 busy_7.2 busy_7.3

build_implementation_tasks-all_sound_example :
    all_sound automatic_options no_time 5 busy
      (build_implementation_tasks automatic_options 0 no_time 5 (some listed_tasks) busy)
    ≡ true
build_implementation_tasks-all_sound_example =
    build_implementation_tasks-all_sound automatic_options 0 no_time 5 (some listed_tasks) busy
