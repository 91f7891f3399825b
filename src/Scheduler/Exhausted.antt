-- ===== src/Scheduler/Exhausted.antt =====
-- The end of a reconcile whose retries are used up (the case startTaskKindReconcile of
-- applyTaskResult in internal/gocli/start_scheduler.go).
use nana.Prelude.{◌≤◌, ltb, String, true, false, Option, none, some, ◌≡◌, arith, eq_refl}
use nana.Scheduler.State.{
  ServiceTask, Task, Coordinator, ReconcileResult, task_at, issue_at, put_issue,
  service_task_retry_limit, IssueState,
}
use nana.Scheduler.Stored.{issue_at-put_issue}
use nana.Scheduler.Reconcile.{reconciled, apply_reconcile}
use nana.Scheduler.Retry.{written-fst}

stored_issue :
    (k : String) (i : IssueState) (c : Coordinator)
    → issue_at k (Coordinator.state (put_issue k i c)) ≡ i
stored_issue k i c = rw (issue_at-put_issue k k i c, eq_refl k)

not_below :
    (v : ServiceTask)
    → service_task_retry_limit v.kind ≤ v.attempts
    → ltb v.attempts (service_task_retry_limit v.kind) ≡ false
not_below v h = ground arith

-- A reconcile that asks for a retry and has none left does what it does without asking: the status
-- "blocked" and the reason "reconcile retries exhausted" that are set first are lost, and the issue
-- has the status and the reason of the result.
pub exhausted-reconcile :
    (write : Option String) (now : String) (task : Task) (result : ReconcileResult)
    (c : Coordinator)
    → result.should_retry ≡ true
    → (let v = task_at task.key c.state in service_task_retry_limit v.kind ≤ v.attempts)
    → let after = (apply_reconcile write now task (some result) none c).0 in
      (apply_reconcile write now task (some result) none c
        ≡ apply_reconcile write now task (some (record result { should_retry = false })) none c)
      × ((issue_at task.issue_key after.state).status ≡ result.status)
      × ((issue_at task.issue_key after.state).blocked_reason ≡ result.blocked_reason)
unfolding apply_reconcile reconciled
exhausted-reconcile write now task result c s h = (
  rw (s, not_below (task_at task.key c.state) h),
  rw (
    s,
    not_below (task_at task.key c.state) h,
    written-fst write _ none,
    stored_issue task.issue_key _ _,
  ),
  rw (
    s,
    not_below (task_at task.key c.state) h,
    written-fst write _ none,
    stored_issue task.issue_key _ _,
  ),
)
