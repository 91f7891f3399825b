-- ===== src/Scheduler/Sync/Setup.antt =====
-- What syncServiceTasks does not write of a coordinator.
use nana.Prelude.{
  String, Bool, true, false, List, [], ◌∷◌, ◌==◌, if◌then◌else◌, ◌≡◌, inl, inr, refl, ◌∙◌,
  Bool-cases,
}
use nana.Scheduler.State.{
  PlannedItem, put_item, ServiceTask, IssueState, Coordinator, task_at, put_task, put_issue,
  issue_at,
}
use nana.Scheduler.Service.{upsert_service_task, is_kept}
use nana.Scheduler.Sync.Due.{
  scout_desired, sync_desired, upsert_scouts, upsert_sync, upsert_triage, upsert_reconcile,
  upsert_issues, should_queue_triage, should_queue_reconcile,
}
use nana.Scheduler.Sync.Reset.{
  is_planned_launch, is_recovering, requeued_task, requeue_running, rest_scout, drop_task,
  reset_task, reset_tasks,
}

-- What no step of the sync writes.
pub record IsSameSetup (a b : Coordinator) : Type 0 where
  pub repo_slugs : b.repo_slug ≡ a.repo_slug
  pub cycles : b.cycle_id ≡ a.cycle_id
  pub roles : b.scout_roles ≡ a.scout_roles
  pub runs : b.running ≡ a.running

pub IsSameSetup-refl : (c : Coordinator) → IsSameSetup c c
IsSameSetup-refl c = record { repo_slugs = refl; cycles = refl; roles = refl; runs = refl }

pub IsSameSetup-trans : {a b c : Coordinator} → IsSameSetup a b → IsSameSetup b c → IsSameSetup a c
IsSameSetup-trans p q = record {
  repo_slugs = q.repo_slugs ∙ p.repo_slugs;
  cycles = q.cycles ∙ p.cycles;
  roles = q.roles ∙ p.roles;
  runs = q.runs ∙ p.runs;
}

pub IsSameSetup-if :
    (b : Bool) (c x y : Coordinator)
    → IsSameSetup c x
    → IsSameSetup c y
    → IsSameSetup c (if b then x else y)
IsSameSetup-if true c x y p q = p
IsSameSetup-if false c x y p q = q

pub put_task-IsSameSetup :
    (k : String) (v : ServiceTask) (c : Coordinator) → IsSameSetup c (put_task k v c)
unfolding put_task
put_task-IsSameSetup k v c = record { repo_slugs = refl; cycles = refl; roles = refl; runs = refl }

put_issue-IsSameSetup :
    (k : String) (v : IssueState) (c : Coordinator) → IsSameSetup c (put_issue k v c)
unfolding put_issue
put_issue-IsSameSetup k v c = record { repo_slugs = refl; cycles = refl; roles = refl; runs = refl }

pub put_item-IsSameSetup :
    (k : String) (v : PlannedItem) (c : Coordinator) → IsSameSetup c (put_item k v c)
unfolding put_item
put_item-IsSameSetup k v c = record { repo_slugs = refl; cycles = refl; roles = refl; runs = refl }

drop_task-IsSameSetup : (k : String) (c : Coordinator) → IsSameSetup c (drop_task k c)
unfolding drop_task
drop_task-IsSameSetup k c = record { repo_slugs = refl; cycles = refl; roles = refl; runs = refl }

pub requeue_running-IsSameSetup :
    (now key : String) (task : ServiceTask) (c : Coordinator)
    → IsSameSetup c (requeue_running now key task c)
unfolding requeue_running
requeue_running-IsSameSetup now key task c =
    IsSameSetup-if _ c _ _
      (IsSameSetup-trans (put_task-IsSameSetup key (requeued_task now task) c)
        (put_issue-IsSameSetup _ _ _))
      (put_task-IsSameSetup key _ c)

rest_scout-IsSameSetup : (now key : String) (c : Coordinator) → IsSameSetup c (rest_scout now key c)
unfolding rest_scout
rest_scout-IsSameSetup now key c =
    IsSameSetup-if _ c _ _ (put_task-IsSameSetup key _ c) (IsSameSetup-refl c)

pub reset_task-IsSameSetup :
    (active : List String) (now key : String) (c : Coordinator)
    → IsSameSetup c (reset_task active now key c)
unfolding reset_task
reset_task-IsSameSetup active now key c =
    IsSameSetup-if (is_planned_launch (task_at key c.state).kind) c _ _
      (drop_task-IsSameSetup key c)
      (IsSameSetup-if ((task_at key c.state).status == "running") c _ _
        (IsSameSetup-if (is_recovering active c.repo_slug (task_at key c.state)) c _ _
          (IsSameSetup-refl c)
          (IsSameSetup-trans (requeue_running-IsSameSetup now key (task_at key c.state) c)
            (rest_scout-IsSameSetup now key _)))
        (rest_scout-IsSameSetup now key c))

pub reset_tasks-IsSameSetup :
    (active : List String) (now : String) (keys : List String) (c : Coordinator)
    → IsSameSetup c (reset_tasks active now keys c)
unfolding reset_tasks
reset_tasks-IsSameSetup active now [] c = IsSameSetup-refl c
reset_tasks-IsSameSetup active now (key ∷ keys) c =
    IsSameSetup-trans (reset_task-IsSameSetup active now key c)
      (reset_tasks-IsSameSetup active now keys _)

-- The upserts.
upsert-IsSameSetup :
    (desired : ServiceTask) (now : String) (c : Coordinator)
    → IsSameSetup c (upsert_service_task desired now c).0
unfolding upsert_service_task
upsert-IsSameSetup desired now c =
    elim (Bool-cases (is_kept desired.kind (task_at desired.id c.state) desired)) [
      | inl k ↦ rw k (IsSameSetup-refl c)
      | inr k ↦ rw k (put_task-IsSameSetup desired.id _ c)
    ]

upsert_scouts-IsSameSetup :
    (now : String) (roles : List String) (c : Coordinator)
    → IsSameSetup c (upsert_scouts now roles c)
unfolding upsert_scouts
upsert_scouts-IsSameSetup now [] c = IsSameSetup-refl c
upsert_scouts-IsSameSetup now (role ∷ roles) c =
    IsSameSetup-trans (upsert-IsSameSetup (scout_desired c.cycle_id role) now c)
      (upsert_scouts-IsSameSetup now roles _)

upsert_sync-IsSameSetup : (now : String) (c : Coordinator) → IsSameSetup c (upsert_sync now c)
unfolding upsert_sync
upsert_sync-IsSameSetup now c =
    elim c.scout_roles
      as (λ r. IsSameSetup c (elim r [
        | [] ↦ c
        | role ∷ rest ↦ (upsert_service_task (sync_desired c.cycle_id (role ∷ rest)) now c).0
      ])) [
        | [] ↦ IsSameSetup-refl c
        | role ∷ rest ↦ upsert-IsSameSetup (sync_desired c.cycle_id (role ∷ rest)) now c
      ]

upsert_issues-IsSameSetup :
    (mode now : String) (keys : List String) (c : Coordinator)
    → IsSameSetup c (upsert_issues mode now keys c)
unfolding upsert_issues upsert_triage upsert_reconcile
upsert_issues-IsSameSetup mode now [] c = IsSameSetup-refl c
upsert_issues-IsSameSetup mode now (key ∷ keys) c =
    IsSameSetup-trans
      (IsSameSetup-trans
        (IsSameSetup-if (should_queue_triage mode key (issue_at key c.state) c) c _ _
          (upsert-IsSameSetup _ now c) (IsSameSetup-refl c))
        (IsSameSetup-if
          (should_queue_reconcile key
            (issue_at key (Coordinator.state (upsert_triage mode now key c)))
            (upsert_triage mode now key c))
          (upsert_triage mode now key c) _ _ (upsert-IsSameSetup _ now _) (IsSameSetup-refl _)))
      (upsert_issues-IsSameSetup mode now keys _)

pub upserts-IsSameSetup :
    (mode now : String) (keys roles : List String) (c : Coordinator)
    → IsSameSetup c (upsert_issues mode now keys (upsert_sync now (upsert_scouts now roles c)))
upserts-IsSameSetup mode now keys roles c =
    IsSameSetup-trans
      (IsSameSetup-trans (upsert_scouts-IsSameSetup now roles c) (upsert_sync-IsSameSetup now _))
      (upsert_issues-IsSameSetup mode now keys _)
