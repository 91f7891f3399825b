-- ===== src/Scheduler/Retry.antt =====
-- A service task that fails (applyTaskResult and handleServiceTaskFailure of
-- internal/gocli/start_scheduler.go): whether it is tried again.
use nana.Prelude.{
  ltb, String, Option, none, some, if◌then◌else◌, ◌≡◌, inl, inr, refl, sym, ap, eq_refl, lookup,
  Bool-cases, ◌∙◌,
}
use nana.Scheduler.State.{
  TaskKind, issue_sync, scout, triage, reconcile, IssueState, ServiceTask, WorkState, Task,
  Coordinator, TaskResult, TaskError, failure, TriageResult, StepError, task_at, put_task,
  put_issue, written, service_task_retry_limit, or_zero, zero_task,
}
use nana.Scheduler.Stored.{task_at-put_task, task_at-put_issue}
use nana.Scheduler.Failure.{handle_service_task_failure}
use nana.Scheduler.Triage.{apply_start_work_triage_result, apply_found_triage}
use nana.Scheduler.Reconcile.{apply_reconcile, reconcile_failed}
use nana.Scheduler.Outcome.{apply_task_result, apply_refreshing, write_again, apply_kind}

-- The tasks that are tried again: the cases of applyTaskResult that read the retry limit.
pub data IsRetried (task : Task) (state : WorkState) : Type 0 where
  syncs : task.kind ≡ issue_sync → IsRetried task state
  scouts : task.kind ≡ scout → IsRetried task state
  reconciles : task.kind ≡ reconcile → IsRetried task state
  triages :
      task.kind ≡ triage
      → (issue : IssueState) → lookup task.issue_key state.issues ≡ some issue
      → IsRetried task state

abbrev pub retry_status : ServiceTask → String
retry_status task =
    if ltb task.attempts (service_task_retry_limit task.kind) then "queued" else "failed"

pub written-fst :
    (write : Option String) (c : Coordinator) (next : Option StepError)
    → (written write c next).0 ≡ c
unfolding written
written-fst none c next = refl
written-fst (some e) c next = refl

stored_task :
    (k : String) (v : ServiceTask) (c : Coordinator)
    → task_at k (Coordinator.state (put_task k v c)) ≡ v
stored_task k v c = rw (task_at-put_task k k v c, eq_refl k)

stored_both :
    (k j : String) (v : ServiceTask) (i : IssueState) (c : Coordinator)
    → task_at k (Coordinator.state (put_issue j i (put_task k v c))) ≡ v
stored_both k j v i c = task_at-put_issue j k i (put_task k v c) ∙ stored_task k v c

handle-status :
    (write : Option String) (now t : String) (v : ServiceTask) (c : Coordinator)
    → (task_at v.id
        (Coordinator.state (handle_service_task_failure write now v (failure t) c).0)).status
      ≡ retry_status v
unfolding handle_service_task_failure
handle-status write now t v c =
    elim (Bool-cases (ltb v.attempts (service_task_retry_limit v.kind))) [
      | inl h ↦ rw (h, written-fst write _ none, stored_task v.id _ c)
      | inr h ↦ rw (h, written-fst write _ _, stored_task v.id _ c)
    ]

reconcile-status :
    (write : Option String) (now t : String) (task : Task) (c : Coordinator)
    → (task_at task.key
        (Coordinator.state (reconcile_failed write now task (failure t) c).0)).status
      ≡ retry_status (task_at task.key c.state)
unfolding reconcile_failed
reconcile-status write now t task c =
    let v = task_at task.key c.state in
    elim (Bool-cases (ltb v.attempts (service_task_retry_limit v.kind))) [
      | inl h ↦ rw (h, written-fst write _ none, stored_both task.key task.issue_key _ _ c)
      | inr h ↦ rw (h, written-fst write _ _, stored_both task.key task.issue_key _ _ c)
    ]

found_triage-status :
    (write : Option String) (now key issue_key : String) (e : TaskError)
    (result : Option TriageResult) (v : ServiceTask) (i : IssueState) (c : Coordinator)
    → (task_at key (
        Coordinator.state
          (apply_found_triage write now key issue_key result (some e) v i c).0)).status
      ≡ retry_status v
unfolding apply_found_triage
found_triage-status write now key issue_key e result v i c =
    elim (Bool-cases (ltb v.attempts (service_task_retry_limit v.kind))) [
      | inl h ↦ rw (h, written-fst write _ none, stored_both key issue_key _ _ c)
      | inr h ↦ rw (h, written-fst write _ _, stored_both key issue_key _ _ c)
    ]

write_again-fst :
    (again : Option String) (p : Coordinator × Option StepError) → (write_again again p).0 ≡ p.0
write_again-fst again (c, none) = written-fst again c none
write_again-fst again (c, some e) = refl

triage-status :
    (write : Option String) (now key issue_key : String) (e : TaskError)
    (result : Option TriageResult) (v : ServiceTask) (i : IssueState) (c : Coordinator)
    → lookup key c.state.service_tasks ≡ some v
    → lookup issue_key c.state.issues ≡ some i
    → (task_at key (
        Coordinator.state
          (apply_start_work_triage_result write now key issue_key result (some e) c).0)).status
      ≡ retry_status v
unfolding apply_start_work_triage_result
triage-status write now key issue_key e result v i c h g =
    rw (h, g) (found_triage-status write now key issue_key e result v i c)

pub found_task :
    (k : String) (v : ServiceTask) (state : WorkState)
    → lookup k state.service_tasks ≡ some v
    → task_at k state ≡ v
unfolding task_at
found_task k v state l = ap (or_zero zero_task) l

refreshing-status :
    (complete : ServiceTask → ServiceTask) (write : Option String) (now t : String) (task : Task)
    (v : ServiceTask) (c : Coordinator)
    → task_at task.key c.state ≡ v
    → v.id ≡ task.key
    → (task_at task.key (
        Coordinator.state (apply_refreshing complete write now task (some (failure t)) c).0)).status
      ≡ retry_status v
unfolding apply_refreshing
refreshing-status complete write now t task v c l i = rw (l, sym i, handle-status write now t v c)

kind_status :
    (write again : Option String) (now : String) (result : TaskResult) (c : Coordinator)
    {kind : TaskKind}
    → Task.kind result.task ≡ kind
    → (task_at
        (Task.key result.task)
        (Coordinator.state (apply_kind result.task.kind write again now result c).0)).status
      ≡ (task_at
          (Task.key result.task)
          (Coordinator.state (apply_kind kind write again now result c).0)).status
kind_status write again now result c k =
    ap
      (λ kind.
        (task_at (Task.key result.task)
          (Coordinator.state (apply_kind kind write again now result c).0)).status)
      k

-- A service task that is stored under its own name and fails, for another reason than a rate limit,
-- is queued again when it has made fewer attempts than the limit of its kind (2 for a scout, 3
-- otherwise), and else failed; for a triage, if its issue is stored too. Whether the writes of the
-- state file succeed makes no difference to the state in memory.
pub failed-retry_status :
    (write again : Option String) (now t : String) (result : TaskResult) (v : ServiceTask)
    (c : Coordinator)
    → result.error ≡ some (failure t)
    → lookup result.task.key c.state.service_tasks ≡ some v
    → v.id ≡ result.task.key
    → IsRetried result.task c.state
    → (task_at result.task.key
        (Coordinator.state (apply_task_result write again now result c).0)).status
      ≡ retry_status v
unfolding apply_task_result apply_reconcile
failed-retry_status write again now t result v c e l i (syncs k) = rw (
  kind_status write again now result c k,
  e,
  refreshing-status _ write now t result.task v c (found_task _ v c.state l) i,
)
failed-retry_status write again now t result v c e l i (scouts k) = rw (
  kind_status write again now result c k,
  e,
  refreshing-status _ write now t result.task v c (found_task _ v c.state l) i,
)
failed-retry_status write again now t result v c e l i (reconciles k) = rw (
  kind_status write again now result c k,
  e,
  reconcile-status write now t result.task c,
  found_task _ v c.state l,
)
failed-retry_status write again now t result v c e l i (triages k issue g) = rw (
  kind_status write again now result c k,
  write_again-fst again _,
  e,
  triage-status write now result.task.key result.task.issue_key (failure t) result.triage v issue c
      l g,
)

-- A triage that is stored with its issue is queued or failed by its attempts on every error, also on
-- that of a rate limit: it is failed by a rate limit when its attempts are used up.
pub triage-retry_status :
    (write again : Option String) (now : String) (e : TaskError) (result : TaskResult)
    (v : ServiceTask) (issue : IssueState) (c : Coordinator)
    → result.error ≡ some e
    → Task.kind result.task ≡ triage
    → lookup result.task.key c.state.service_tasks ≡ some v
    → lookup result.task.issue_key c.state.issues ≡ some issue
    → (task_at result.task.key
        (Coordinator.state (apply_task_result write again now result c).0)).status
      ≡ retry_status v
unfolding apply_task_result
triage-retry_status write again now e result v issue c h k l g = rw (
  kind_status write again now result c k,
  write_again-fst again _,
  h,
  triage-status write now result.task.key result.task.issue_key e result.triage v issue c l g,
)
