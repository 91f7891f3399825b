-- ===== src/Scheduler/Workers/Tests.antt =====
-- Concrete runs of the loop over two repositories.
use nana.Prelude.{
  ℕ, ◌<◌, ◌≤◌, String, true, false, none, List, [], ◌∷◌, ◌≡◌, ◌≢◌, refl, lookup, put, is_some,
  length,
}
use nana.Scheduler.State.{scout, WorkState, Task, TaskResult, written, task_at, put_task}
use nana.Scheduler.Begin.{begin, mark_task_started}
use nana.Scheduler.Outcome.{apply_task_result, apply_refreshing}
use nana.Scheduler.Select.{select_next_task, next_start_repo_index, index_after}
use nana.Scheduler.Workers.{
  Operations, Prepared, prepared, left_out, Pool, Progress, waiting, finished, panicked,
  out_of_fuel, delete_repo, delete, scan_repos, next_start_repo_task, drop_repo, launch, fill,
  complete, finish, settle, run_workers, open_repos, run_start_repo_cycles, empty_pool,
  worker_count,
}
use nana.Scheduler.Workers.Coordinators.{
  CycleError, Load, loaded, unloaded, Fed, next_task, next_fed, mark_fed, apply_fed,
  coordinator_operations,
}
use nana.Scheduler.Workers.Loop.{
  run_start_repo_cycles-bound, run_start_repo_cycles-received, run_start_repo_cycles-ends,
  run_start_repo_cycles-served,
}

abbrev no_work : WorkState
no_work = record { issues = []; service_tasks = []; planned_items = []; scout_jobs = [] }

abbrev scout_task : String → Task
scout_task role = record {
  key = role;
  queue = "service";
  kind = scout;
  issue_key = "";
  scout_job_id = "";
  planned_item_id = "";
  scout_role = role;
  run_id = "";
}

abbrev fed : String → List Load → Fed
fed repo loads = record {
  coordinator = record {
    repo_slug = repo;
    cycle_id = "c1";
    state = no_work;
    running = [];
    scout_roles = [];
    next_queue = "service";
    refresh_state = false;
    started_issue_numbers = [];
    service_started_count = 0;
    impl_started_count = 0;
  };
  loads = loads;
}

abbrev done : TaskResult
done = record {
  task = scout_task "";
  triage = none;
  reconcile = none;
  launch = none;
  planned_launch = none;
  error = none;
}

abbrev operations : Operations Fed Task TaskResult CycleError
operations = coordinator_operations none none "t1" (λ f. none) (λ repo. none)

-- "o/a" has two tasks and "o/b" one; "o/d" is left out.
abbrev repos : List (String × Prepared Fed CycleError)
repos =
    (
      "o/a",
      prepared (
          fed "o/a" (
            loaded no_work (scout_task "dev" ∷ []) []
            ∷ loaded no_work (scout_task "ui" ∷ []) []
            ∷ [])),
    )
    ∷ ("o/b", prepared (fed "o/b" (loaded no_work (scout_task "dev" ∷ []) [] ∷ [])))
    ∷ ("o/d", left_out)
    ∷ []

abbrev pool_of : Progress Fed Task CycleError → Pool Fed Task CycleError
pool_of (waiting q) = q
pool_of (finished q) = q
pool_of _ = empty_pool

abbrev one_done : List (ℕ × TaskResult)
one_done = (0, done) ∷ []

abbrev all_done : List (ℕ × TaskResult)
all_done = (1, done) ∷ (0, done) ∷ (0, done) ∷ []

one_waits :
    (run_start_repo_cycles operations 2 repos one_done
      ≡ waiting (pool_of (run_start_repo_cycles operations 2 repos one_done)))
    × (length (pool_of (run_start_repo_cycles operations 2 repos one_done)).in_flight ≡ 2)
    × ((pool_of (run_start_repo_cycles operations 2 repos one_done)).errs ≡ [])
unfolding run_start_repo_cycles run_workers settle fill scan_repos next_start_repo_task launch
    drop_repo complete finish open_repos next_fed next_task mark_fed apply_fed mark_task_started
    begin written apply_task_result apply_refreshing select_next_task next_start_repo_index
    index_after lookup put delete delete_repo put_task task_at
one_waits = (refl, refl, refl)

all_finish :
    run_start_repo_cycles operations 2 repos all_done
    ≡ finished (pool_of (run_start_repo_cycles operations 2 repos all_done))
unfolding run_start_repo_cycles run_workers settle fill scan_repos next_start_repo_task launch
    drop_repo complete finish open_repos next_fed next_task mark_fed apply_fed mark_task_started
    begin written apply_task_result apply_refreshing select_next_task next_start_repo_index
    index_after lookup put delete delete_repo put_task task_at
all_finish = refl

run_start_repo_cycles-bound_example :
    let q = pool_of (run_start_repo_cycles operations 2 repos one_done) in
    (length q.in_flight ≡ q.running) × (0 < q.running) × (q.running ≤ worker_count 2)
run_start_repo_cycles-bound_example =
    run_start_repo_cycles-bound operations 2 repos one_done
      (pool_of (run_start_repo_cycles operations 2 repos one_done)) one_waits.0

run_start_repo_cycles-received_example :
    (pool_of (run_start_repo_cycles operations 2 repos all_done)).in_flight ≡ []
run_start_repo_cycles-received_example =
    run_start_repo_cycles-received operations 2 repos all_done
      (pool_of (run_start_repo_cycles operations 2 repos all_done)) all_finish

run_start_repo_cycles-ends_example : run_start_repo_cycles operations 2 repos all_done ≢ out_of_fuel
run_start_repo_cycles-ends_example = run_start_repo_cycles-ends operations 2 repos all_done

run_start_repo_cycles-served_example :
    is_some
      (complete operations 1 done (pool_of (run_start_repo_cycles operations 2 repos one_done)))
    ≡ true
run_start_repo_cycles-served_example =
    run_start_repo_cycles-served operations 2 repos one_done
      (pool_of (run_start_repo_cycles operations 2 repos one_done)) 1 done one_waits.0 one_waits.2

-- The second task of "o/a" is being run when the files of "o/a" cannot be read.
abbrev unread_repos : List (String × Prepared Fed CycleError)
unread_repos =
    (
      "o/a",
      prepared (fed "o/a" (loaded no_work (scout_task "dev" ∷ []) [] ∷ unloaded "denied" ∷ [])),
    )
    ∷ []

unread_panics : run_start_repo_cycles operations 2 unread_repos one_done ≡ panicked
unfolding run_start_repo_cycles run_workers settle fill scan_repos next_start_repo_task launch
    drop_repo complete finish open_repos next_fed next_task mark_fed apply_fed mark_task_started
    begin written apply_task_result apply_refreshing select_next_task next_start_repo_index
    index_after lookup put delete delete_repo put_task task_at
unread_panics = refl
