-- ===== src/Scheduler/Tests.antt =====
-- Concrete runs of the coordinator.
use nana.Prelude.{
  ◌+◌, ◌≤◌, String, true, false, Option, none, some, List, [], ◌∷◌, ◌==◌, ◌≡◌, ◌≢◌, refl, arith,
  eq_iff, lookup, length, trim_space, put,
}
use nana.Scheduler.State.{
  scout, triage, reconcile, ServiceTask, Task, Coordinator, TaskResult, TaskError, paused, failure,
  PauseInfo, ReconcileResult, task_at, issue_at, zero_task, zero_issue, put_task, put_issue,
  written, service_task_retry_limit,
}
use nana.Scheduler.Begin.{begin, mark_task_started}
use nana.Scheduler.Outcome.{apply_task_result, apply_refreshing}
use nana.Scheduler.Reconcile.{apply_reconcile}
use nana.Scheduler.Select.{implementation_queue}
use nana.Scheduler.Service.{upsert_service_task, is_kept}
use nana.Scheduler.Attempts.{IsWellFormed, unnamed}
use nana.Scheduler.Run.{
  Event, started, finished, queued, step, run_events, starts, run_events-IsWellFormed,
  run_events-starts,
}
use nana.Scheduler.Retry.{scouts, retry_status, failed-retry_status, triage-retry_status}
use nana.Scheduler.Lifetime.{failed-starts}
use nana.Scheduler.Exhausted.{exhausted-reconcile}
use nana.Scheduler.Turns.{taken, alternate, taken-alternate}
use nana.Scheduler.Pause.{IsPausing, work_status, paused-requeues}

abbrev new_coordinator : Coordinator
new_coordinator = record {
  repo_slug = "o/r";
  cycle_id = "c1";
  state = record { issues = []; service_tasks = []; planned_items = []; scout_jobs = [] };
  running = [];
  scout_roles = [];
  next_queue = "service";
  refresh_state = false;
  started_issue_numbers = [];
  service_started_count = 0;
  impl_started_count = 0;
}

new_coordinator-IsWellFormed : IsWellFormed new_coordinator.state
unfolding task_at lookup
new_coordinator-IsWellFormed key = unnamed refl

abbrev scout_task : Task
scout_task = record {
  key = "scout:dev";
  queue = "service";
  kind = scout;
  issue_key = "";
  scout_job_id = "";
  planned_item_id = "";
  scout_role = "dev";
  run_id = "";
}

abbrev scout_of : String → ServiceTask
scout_of generation = record zero_task {
  id = "scout:dev";
  kind = scout;
  queue = "service";
  status = "queued";
  scout_role = "dev";
  generation = generation;
}

abbrev ended : Option TaskError → TaskResult
ended error = record {
  task = scout_task;
  triage = none;
  reconcile = none;
  launch = none;
  planned_launch = none;
  error = error;
}

-- Two cycles in which the scout succeeds, and the start of its third attempt's cycle.
abbrev two_cycles : List Event
two_cycles =
    queued (scout_of "c1") "t1"
    ∷ started none "t2" scout_task
    ∷ finished none none "t3" (ended none)
    ∷ queued (scout_of "c2") "t4"
    ∷ started none "t5" scout_task
    ∷ []

abbrev behind : Coordinator
behind = run_events two_cycles new_coordinator

run_events-IsWellFormed_example :
    IsWellFormed (Coordinator.state (run_events two_cycles new_coordinator))
run_events-IsWellFormed_example =
    run_events-IsWellFormed two_cycles new_coordinator new_coordinator-IsWellFormed

key-not_empty : ◌≢◌ {A = String} "scout:dev" ""
key-not_empty = ground (arith, eq_iff "scout:dev" "")

run_events-starts_example :
    (task_at "scout:dev" (Coordinator.state (run_events two_cycles new_coordinator))).attempts
    ≡ (task_at "scout:dev" new_coordinator.state).attempts + starts "scout:dev" two_cycles
run_events-starts_example =
    run_events-starts two_cycles new_coordinator "scout:dev" new_coordinator-IsWellFormed
      key-not_empty

abbrev stored_scout : ServiceTask
stored_scout = task_at "scout:dev" behind.state

behind_runs :
    (lookup "scout:dev" behind.state.service_tasks ≡ some stored_scout)
    × (stored_scout.id ≡ "scout:dev")
    × (retry_status stored_scout ≡ "failed")
unfolding run_events step mark_task_started begin written apply_task_result apply_refreshing
    upsert_service_task is_kept put_task task_at lookup put service_task_retry_limit
behind_runs = (refl, refl, refl)

failed-retry_status_example :
    (task_at "scout:dev" (
      Coordinator.state
        (apply_task_result none none "t6" (ended (some (failure "no network"))) behind).0)).status
    ≡ retry_status stored_scout
failed-retry_status_example =
    failed-retry_status none none "t6" "no network" (ended (some (failure "no network")))
      stored_scout behind refl behind_runs.0 behind_runs.1 (scouts refl)

used_up : service_task_retry_limit stored_scout.kind ≤ starts "scout:dev" two_cycles
unfolding run_events step mark_task_started begin written apply_task_result apply_refreshing
    upsert_service_task is_kept put_task task_at lookup put service_task_retry_limit starts
used_up = omega arith

failed-starts_example :
    (task_at "scout:dev" (
      Coordinator.state
        (apply_task_result none none "t6"
          (ended (some (failure "no network")))
          (run_events two_cycles new_coordinator)).0)).status
    ≡ "failed"
failed-starts_example =
    failed-starts two_cycles new_coordinator none none "t6" "no network"
      (ended (some (failure "no network"))) stored_scout new_coordinator-IsWellFormed key-not_empty
      refl behind_runs.0 behind_runs.1 (scouts refl) used_up

abbrev limit : PauseInfo
limit = record { reason = ""; retry_after = "06:00"; switched_to = "" }

paused-requeues_example :
    let after = apply_task_result none none "t6" (ended (some (paused limit))) behind in
    (work_status scout scout_task (after.0).state ≡ ("queued", trim_space "06:00"))
    × (after.1 ≡ none)
paused-requeues_example =
    paused-requeues none "t6" (ended (some (paused limit))) limit behind refl
      (IsPausing.scouts behind_runs.1)

taken-alternate_example :
    taken
      (length (scout_task ∷ scout_task ∷ []) + length (scout_task ∷ []))
      (scout_task ∷ scout_task ∷ [])
      (scout_task ∷ [])
      behind
    ≡ alternate
        (behind.next_queue == implementation_queue)
        (scout_task ∷ scout_task ∷ [])
        (scout_task ∷ [])
taken-alternate_example = taken-alternate (scout_task ∷ scout_task ∷ []) (scout_task ∷ []) behind

abbrev sample_reconcile : Task
sample_reconcile = record scout_task { key = "reconcile:7"; kind = reconcile; issue_key = "7" }

abbrev waiting : ReconcileResult
waiting = record {
  status = "in_progress";
  blocked_reason = "";
  run_id = "r9";
  published_pr_number = 0;
  published_pr_url = "";
  publication_state = "";
  should_retry = true;
}

abbrev tried : Coordinator
tried =
    put_task "reconcile:7"
      (record zero_task { id = "reconcile:7"; kind = reconcile; status = "running"; attempts = 3 })
      (put_issue "7" (record zero_issue { status = "in_progress" }) new_coordinator)

tried_often :
    let v = task_at "reconcile:7" tried.state in service_task_retry_limit v.kind ≤ v.attempts
unfolding put_task put_issue task_at lookup put service_task_retry_limit
tried_often = omega arith

exhausted-reconcile_example :
    let after = (apply_reconcile none "t9" sample_reconcile (some waiting) none tried).0 in
    (apply_reconcile none "t9" sample_reconcile (some waiting) none tried
      ≡ apply_reconcile none "t9" sample_reconcile
          (some (record waiting { should_retry = false }))
          none
          tried)
    × ((issue_at "7" after.state).status ≡ "in_progress")
    × ((issue_at "7" after.state).blocked_reason ≡ "")
exhausted-reconcile_example =
    exhausted-reconcile none "t9" sample_reconcile waiting tried refl tried_often

abbrev triage_task : Task
triage_task = record scout_task { key = "triage:7"; kind = triage; issue_key = "7" }

abbrev tried_triage : ServiceTask
tried_triage = record zero_task { id = "triage:7"; kind = triage; status = "running"; attempts = 3 }

abbrev triaging : Coordinator
triaging = put_task "triage:7" tried_triage (put_issue "7" zero_issue new_coordinator)

triaging_stored :
    (lookup "triage:7" triaging.state.service_tasks ≡ some tried_triage)
    × (lookup "7" triaging.state.issues ≡ some zero_issue)
unfolding put_task put_issue lookup put
triaging_stored = (refl, refl)

triage-retry_status_example :
    (task_at "triage:7" (
      Coordinator.state
        (apply_task_result none none "t9"
          (record (ended (some (paused limit))) { task = triage_task })
          triaging).0)).status
    ≡ retry_status tried_triage
triage-retry_status_example =
    triage-retry_status none none "t9" (paused limit)
      (record (ended (some (paused limit))) { task = triage_task }) tried_triage zero_issue triaging
      refl refl triaging_stored.0 triaging_stored.1
