-- ===== src/Scheduler/Kept.antt =====
-- The end of a task keeps the names and the attempts of all service tasks.
use nana.Prelude.{ltb, String, Option-cases, lookup, Option, none, some, ◌≡◌, inl, inr, refl, ap}
use nana.Scheduler.State.{
  TaskKind, issue_sync, scout, triage, implementation, scout_job, reconcile, planned_launch, other,
  IssueState, ServiceTask, Task, Coordinator, paused, failure, TaskResult, TaskError, StepError,
  ReconcileResult, TriageResult, PlannedLaunchResult, task_at, or_zero, zero_task,
}
use nana.Scheduler.Failure.{handle_service_task_failure}
use nana.Scheduler.Triage.{apply_start_work_triage_result, apply_found_triage}
use nana.Scheduler.Reconcile.{apply_reconcile, reconciled, reconcile_failed}
use nana.Scheduler.Launch.{apply_planned_launch}
use nana.Scheduler.Outcome.{
  hand_over, write_again, apply_kind, apply_implementation, apply_scout_job, apply_refreshing,
  apply_task_result,
}
use nana.Scheduler.Attempts.{
  IsNamed, named, IsNamed-as, IsWellFormed, Same, put_task-Same, Same-refl, Same-trans,
  written-Same,
}
use nana.Scheduler.Writes.{
  put_named-Same, put_issue-Same, id_of, attempts_of, put_job-Same, put_item-Same, put_found-Same,
  refreshed-Same, put_both-Same, either-Same,
}

hand_over-Same :
    (now : String) (task : Task) (issue : IssueState) (c : Coordinator)
    → Same c (hand_over now task issue c)
hand_over-Same now task issue c =
    Same-trans (put_issue-Same task.issue_key issue c)
      (put_task-Same _ _ _ (named refl) (λ h. refl))

handle-Same :
    (write : Option String) (now key : String) (error : TaskError) (c : Coordinator)
    → IsNamed key (task_at key c.state)
    → Same c (handle_service_task_failure write now (task_at key c.state) error c).0
unfolding handle_service_task_failure
handle-Same write now key (paused info) c n =
    written-Same write none c _ (put_named-Same key _ c n refl refl)
handle-Same write now key (failure t) c n =
    either-Same (ltb (task_at key c.state).attempts _) _ _ c
      (written-Same write none c _ (put_named-Same key _ c n refl refl))
      (written-Same write _ c _ (put_named-Same key _ c n refl refl))

found_triage-Same :
    (write : Option String) (now key issue_key : String) (result : Option TriageResult)
    (error : Option TaskError) (task : ServiceTask) (issue : IssueState) (c : Coordinator)
    → task_at key c.state ≡ task
    → IsNamed key (task_at key c.state)
    → Same c (apply_found_triage write now key issue_key result error task issue c).0
unfolding apply_found_triage
found_triage-Same write now key issue_key result (some e) task issue c h n =
    either-Same (ltb task.attempts _) _ _ c
      (written-Same write none c _ (put_both-Same key issue_key _ _ c n (id_of h) (attempts_of h)))
      (written-Same write _ c _ (put_both-Same key issue_key _ _ c n (id_of h) (attempts_of h)))
found_triage-Same write now key issue_key none none task issue c h n = Same-refl c
found_triage-Same write now key issue_key (some r) none task issue c h n =
    written-Same write none c _ (put_both-Same key issue_key _ _ c n (id_of h) (attempts_of h))

triage-Same :
    (write : Option String) (now key issue_key : String) (result : Option TriageResult)
    (error : Option TaskError) (c : Coordinator)
    → IsNamed key (task_at key c.state)
    → Same c (apply_start_work_triage_result write now key issue_key result error c).0
unfolding apply_start_work_triage_result task_at
triage-Same write now key issue_key result error c n =
    elim (Option-cases (lookup key c.state.service_tasks)) [
      | inl h ↦ rw h (Same-refl c)
      | inr (task, h) ↦ elim (Option-cases (lookup issue_key c.state.issues)) [
        | inl g ↦ rw (h, g) (Same-refl c)
        | inr (issue, g) ↦
            rw (h, g)
              (found_triage-Same write now key issue_key result error task issue c
                (ap (or_zero zero_task) h) n)
      ]
    ]

reconcile-Same :
    (write : Option String) (now : String) (task : Task) (result : Option ReconcileResult)
    (error : Option TaskError) (c : Coordinator)
    → IsNamed task.key (task_at task.key c.state)
    → Same c (apply_reconcile write now task result error c).0
unfolding apply_reconcile reconciled reconcile_failed
reconcile-Same write now task result (some error) c n =
    either-Same (ltb (task_at task.key c.state).attempts _) _ _ c
      (written-Same write none c _ (put_both-Same task.key task.issue_key _ _ c n refl refl))
      (written-Same write _ c _ (put_both-Same task.key task.issue_key _ _ c n refl refl))
reconcile-Same write now task none none c n = Same-refl c
reconcile-Same write now task (some result) none c n =
    either-Same result.should_retry _ _ c
      (either-Same (ltb (task_at task.key c.state).attempts _) _ _ c
        (written-Same write none c _ (put_both-Same task.key task.issue_key _ _ c n refl refl))
        (written-Same write none c _ (put_both-Same task.key task.issue_key _ _ c n refl refl)))
      (written-Same write none c _ (put_both-Same task.key task.issue_key _ _ c n refl refl))

implementation-Same :
    (write : Option String) (now : String) (task : Task) (launch : Option String)
    (error : Option TaskError) (c : Coordinator)
    → Same c (apply_implementation write now task launch error c).0
unfolding apply_implementation
implementation-Same write now task launch (some (paused info)) c =
    written-Same write none c _ (put_issue-Same task.issue_key _ c)
implementation-Same write now task launch (some (failure t)) c =
    written-Same write _ c _ (hand_over-Same now task _ c)
implementation-Same write now task launch none c =
    written-Same write none c _ (hand_over-Same now task _ c)

scout_job-Same :
    (write : Option String) (now : String) (task : Task) (launch : Option String)
    (error : Option TaskError) (c : Coordinator)
    → Same c (apply_scout_job write now task launch error c).0
unfolding apply_scout_job
scout_job-Same write now task launch (some (paused info)) c =
    written-Same write none c _ (put_job-Same task.scout_job_id _ c)
scout_job-Same write now task launch (some (failure t)) c =
    written-Same write _ c _ (put_job-Same task.scout_job_id _ c)
scout_job-Same write now task launch none c =
    written-Same write none c _ (put_job-Same task.scout_job_id _ c)

planned_launch-Same :
    (write : Option String) (now : String) (task : Task) (result : Option PlannedLaunchResult)
    (error : Option TaskError) (c : Coordinator)
    → Same c (apply_planned_launch write now task result error c).0
unfolding apply_planned_launch
planned_launch-Same write now task none (some (paused info)) c = Same-refl c
planned_launch-Same write now task (some r) (some (paused info)) c =
    written-Same write none c _
      (Same-trans (put_item-Same task.planned_item_id _ c) (put_found-Same _ _ _))
planned_launch-Same write now task result (some (failure t)) c =
    written-Same write _ c _
      (Same-trans (put_item-Same task.planned_item_id _ c) (put_found-Same _ _ _))
planned_launch-Same write now task none none c = Same-refl c
planned_launch-Same write now task (some r) none c =
    written-Same write none c _
      (refreshed-Same (Same-trans (put_item-Same task.planned_item_id _ c) (put_found-Same _ _ _)))

refreshing-Same :
    (complete : ServiceTask → ServiceTask) (write : Option String) (now : String) (task : Task)
    (error : Option TaskError) (c : Coordinator)
    → ((t : ServiceTask) → ((complete t).id ≡ t.id) × ((complete t).attempts ≡ t.attempts))
    → IsNamed task.key (task_at task.key c.state)
    → Same c (apply_refreshing complete write now task error c).0
unfolding apply_refreshing
refreshing-Same complete write now task (some e) c h n = handle-Same write now task.key e c n
refreshing-Same complete write now task none c h n = written-Same write none c _ (
    refreshed-Same (
      put_task-Same task.key _ c (IsNamed-as n (h (task_at task.key c.state)).0)
        (λ g. (h (task_at task.key c.state)).1)))

write_again-Same :
    (again : Option String) (c : Coordinator) (p : Coordinator × Option StepError)
    → Same c p.0
    → Same c (write_again again p).0
write_again-Same again c (b, some e) s = s
write_again-Same again c (b, none) s = written-Same again none c b s

kind-Same :
    (kind : TaskKind) (write again : Option String) (now : String) (result : TaskResult)
    (c : Coordinator)
    → IsWellFormed c.state
    → Same c (apply_kind kind write again now result c).0
kind-Same implementation write again now result c w =
    implementation-Same write now result.task result.launch result.error c
kind-Same scout_job write again now result c w =
    scout_job-Same write now result.task result.launch result.error c
kind-Same issue_sync write again now result c w =
    refreshing-Same _ write now result.task result.error c (λ t. (refl, refl)) (w _)
kind-Same triage write again now result c w =
    write_again-Same again c _ (triage-Same write now _ _ result.triage result.error c (w _))
kind-Same reconcile write again now result c w =
    reconcile-Same write now result.task result.reconcile result.error c (w _)
kind-Same scout write again now result c w =
    refreshing-Same _ write now result.task result.error c (λ t. (refl, refl)) (w _)
kind-Same planned_launch write again now result c w =
    planned_launch-Same write now result.task result.planned_launch result.error c
kind-Same (other t) write again now result c w = Same-refl c

-- Whatever a task returns, and whatever the writes of the state file return.
pub apply_task_result-Same :
    (write again : Option String) (now : String) (result : TaskResult) (c : Coordinator)
    → IsWellFormed c.state
    → Same c (apply_task_result write again now result c).0
unfolding apply_task_result
apply_task_result-Same write again now result c w =
    kind-Same (Task.kind result.task) write again now result c w
