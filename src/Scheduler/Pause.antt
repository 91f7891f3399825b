-- ===== src/Scheduler/Pause.antt =====
-- A task that a rate limit stops (applyTaskResult of internal/gocli/start_scheduler.go).
use nana.Prelude.{String, Option, none, some, ◌≡◌, refl, eq_refl, trim_space}
use nana.Scheduler.State.{
  TaskKind, issue_sync, scout, triage, implementation, scout_job, reconcile, planned_launch, other,
  WorkState, Task, Coordinator, TaskResult, paused, PauseInfo, task_at, issue_at, item_at, job_at,
  written, PlannedLaunchResult, ScoutJob, ServiceTask,
}
use nana.Scheduler.Stored.{
  task_at-put_task, issue_at-put_issue, item_at-put_item, job_at-put_job, item_at-put_job,
}
use nana.Scheduler.Outcome.{
  synced_task, scouted_task, apply_task_result, apply_refreshing, apply_kind, apply_implementation,
  apply_scout_job,
}
use nana.Scheduler.Launch.{apply_planned_launch, put_found}
use nana.Scheduler.Failure.{handle_service_task_failure}

-- Where the work of a kind has its status, and until when it waits.
unfoldable pub work_status : TaskKind → Task → WorkState → String × String
work_status implementation task state =
    let v = issue_at task.issue_key state in (v.status, v.schedule_at)
work_status scout_job task state =
    let v = job_at task.scout_job_id state in (v.status, v.pause_until)
work_status planned_launch task state =
    let v = item_at task.planned_item_id state in (v.state, v.schedule_at)
work_status _ task state = let v = task_at task.key state in (v.status, v.wait_until)

-- The tasks that wait for a rate limit: all but a triage and a reconcile, which count it as a
-- failure. A planned launch returns a result too, and a service task is stored under its name.
pub data IsPausing (result : TaskResult) (state : WorkState) : TaskKind → Type 0 where
  implements : IsPausing result state implementation
  scouts_job : IsPausing result state scout_job
  launches :
      (p : PlannedLaunchResult)
      → result.planned_launch ≡ some p
      → IsPausing result state planned_launch
  syncs :
      (task_at (Task.key result.task) state).id ≡ Task.key result.task
      → IsPausing result state issue_sync
  scouts :
      (task_at (Task.key result.task) state).id ≡ Task.key result.task
      → IsPausing result state scout

item_at-put_found :
    (j : String) (found : Option (String × ScoutJob)) (change : ScoutJob → ScoutJob)
    (c : Coordinator)
    → item_at j (Coordinator.state (put_found found change c)) ≡ item_at j c.state
item_at-put_found j none change c = refl
item_at-put_found j (some (id, job)) change c = item_at-put_job id j (change job) c

refreshing-paused :
    (complete : ServiceTask → ServiceTask) (now : String) (task : Task) (info : PauseInfo)
    (c : Coordinator)
    → (task_at task.key c.state).id ≡ task.key
    → let after = apply_refreshing complete none now task (some (paused info)) c in
      let v = task_at task.key (after.0).state in
      (v.status ≡ "queued") × (v.wait_until ≡ trim_space info.retry_after) × (after.1 ≡ none)
unfolding apply_refreshing handle_service_task_failure written
refreshing-paused complete now task info c h = (
  rw (h, task_at-put_task _ _ _ c, eq_refl task.key),
  rw (h, task_at-put_task _ _ _ c, eq_refl task.key),
  refl,
)

kind-paused :
    (kind : TaskKind) (again : Option String) (now : String) (result : TaskResult)
    (info : PauseInfo) (c : Coordinator)
    → result.error ≡ some (paused info)
    → IsPausing result c.state kind
    → let after = apply_kind kind none again now result c in
      (work_status kind result.task (after.0).state ≡ ("queued", trim_space info.retry_after))
      × (after.1 ≡ none)
unfolding work_status written apply_implementation apply_scout_job apply_planned_launch
kind-paused implementation again now result info c e implements =
    (rw (e, issue_at-put_issue _ _ _ c, eq_refl (Task.issue_key result.task)), rw e)
kind-paused scout_job again now result info c e scouts_job =
    (rw (e, job_at-put_job _ _ _ c, eq_refl (Task.scout_job_id result.task)), rw e)
kind-paused planned_launch again now result info c e (launches p h) = (
  rw (
    e,
    h,
    item_at-put_found _ _ _ _,
    item_at-put_item _ _ _ c,
    eq_refl (Task.planned_item_id result.task),
  ),
  rw (e, h),
)
kind-paused issue_sync again now result info c e (syncs h) =
    let p = refreshing-paused (synced_task now) now result.task info c h in
    (rw (e, p.0, p.1), rw (e, p.2))
kind-paused scout again now result info c e (scouts h) =
    let p = refreshing-paused (scouted_task now) now result.task info c h in
    (rw (e, p.0, p.1), rw (e, p.2))
kind-paused triage again now result info c e x = elim x [ ]
kind-paused reconcile again now result info c e x = elim x [ ]
kind-paused (other t) again now result info c e x = elim x [ ]

-- An implementation, a scout job, a planned launch with a result, or an issue sync or scout that is
-- stored under its own name, when stopped by a rate limit, is queued until the time that the limit
-- names and no error is returned, if the state file is written: the attempts that it has made do not
-- matter.
pub paused-requeues :
    (again : Option String) (now : String) (result : TaskResult) (info : PauseInfo)
    (c : Coordinator)
    → result.error ≡ some (paused info)
    → IsPausing result c.state (Task.kind result.task)
    → let after = apply_task_result none again now result c in
      (work_status (Task.kind result.task) result.task (after.0).state
        ≡ ("queued", trim_space info.retry_after))
      × (after.1 ≡ none)
unfolding apply_task_result
paused-requeues again now result info c e h =
    kind-paused (Task.kind result.task) again now result info c e h
