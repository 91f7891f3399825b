-- ===== src/Scheduler/Sync/Kept.antt =====
-- What the upserts of syncServiceTasks keep of a stored task.
use nana.Prelude.{
  String, Bool, true, false, List, [], ◌∷◌, ◌==◌, member, ◌≡◌, ◌⊎◌, inl, inr, arith, eq_iff,
  eq_refl, Bool-cases,
}
use nana.Scheduler.State.{ServiceTask, IssueState, WorkState, Coordinator, task_at, issue_at}
use nana.Scheduler.Stored.{task_at-put_task}
use nana.Scheduler.Service.{upsert_service_task, is_kept, merged_task}
use nana.Scheduler.Sync.Due.{
  should_queue_triage, should_queue_reconcile, scout_desired, sync_desired, triage_desired,
  reconcile_desired, upsert_scouts, upsert_sync, upsert_triage, upsert_reconcile, upsert_issues,
}

-- The tasks that the sync queues for given roles.
pub data IsDue (roles : List String) : ServiceTask → Type 0 where
  due_scout :
      (cycle_id role : String)
      → member role roles ≡ true
      → IsDue roles (scout_desired cycle_id role)
  due_sync : (cycle_id : String) (all : List String) → IsDue roles (sync_desired cycle_id all)
  due_triage :
      (cycle_id key : String) (issue : IssueState) (state : WorkState)
      → IsDue roles (triage_desired cycle_id key issue state)
  due_reconcile : (key : String) (issue : IssueState) → IsDue roles (reconcile_desired key issue)

-- A test of the task under a key that holds behind each of these upserts if it held in front of it.
module _ (p : ServiceTask → Bool) (j : String) (roles : List String)
    (keeps : (desired : ServiceTask)
      → IsDue roles desired
      → (now : String) (current : ServiceTask)
      → ((desired.id == j) ≡ false)
        ⊎ (p current ≡ true → p (merged_task now current desired) ≡ true)) where
  abbrev Holds : Coordinator → Type 0
  Holds c = p (task_at j c.state) ≡ true

  upsert-Holds :
      (desired : ServiceTask) (now : String) (c : Coordinator)
      → IsDue roles desired
      → Holds c
      → Holds (upsert_service_task desired now c).0
  unfolding upsert_service_task
  upsert-Holds desired now c due h =
      elim (Bool-cases (is_kept desired.kind (task_at desired.id c.state) desired)) [
        | inl k ↦ rw k h
        | inr k ↦
            rw
              (
                k,
                task_at-put_task desired.id j (merged_task now (task_at desired.id c.state) desired)
                    c,
              )
              (elim (Bool-cases (desired.id == j)) [
                | inr e ↦ rw e h
                | inl e ↦ elim (keeps desired due now (task_at desired.id c.state)) [
                  | inl differs ↦ absurd (ground (arith, differs, e))
                  | inr step ↦ rw e (step (rw ((eq_iff desired.id j).0 e) h))
                ]
              ])
      ]

  upsert_scouts-Holds :
      (now : String) (rest : List String) (c : Coordinator)
      → ((role : String) → member role rest ≡ true → member role roles ≡ true)
      → Holds c
      → Holds (upsert_scouts now rest c)
  unfolding upsert_scouts member
  upsert_scouts-Holds now [] c all h = h
  upsert_scouts-Holds now (role ∷ rest) c all h =
      upsert_scouts-Holds now rest _ (λ r m. all r (ground (arith, m)))
        (upsert-Holds (scout_desired c.cycle_id role) now c
          (due_scout c.cycle_id role (all role (ground (arith, eq_refl role)))) h)

  upsert_sync-Holds : (now : String) (c : Coordinator) → Holds c → Holds (upsert_sync now c)
  unfolding upsert_sync
  upsert_sync-Holds now c h =
      elim c.scout_roles
        as (λ r. Holds (elim r [
          | [] ↦ c
          | role ∷ rest ↦ (upsert_service_task (sync_desired c.cycle_id (role ∷ rest)) now c).0
        ])) [ [] ↦ h | role ∷ rest ↦ upsert-Holds _ now c (due_sync c.cycle_id (role ∷ rest)) h ]

  upsert_triage-Holds :
      (mode now key : String) (c : Coordinator) → Holds c → Holds (upsert_triage mode now key c)
  unfolding upsert_triage
  upsert_triage-Holds mode now key c h =
      elim (Bool-cases (should_queue_triage mode key (issue_at key c.state) c)) [
        | inl e ↦
            rw e (upsert-Holds _ now c (due_triage c.cycle_id key (issue_at key c.state) c.state) h)
        | inr e ↦ rw e h
      ]

  upsert_reconcile-Holds :
      (now key : String) (c : Coordinator) → Holds c → Holds (upsert_reconcile now key c)
  unfolding upsert_reconcile
  upsert_reconcile-Holds now key c h =
      elim (Bool-cases (should_queue_reconcile key (issue_at key c.state) c)) [
        | inl e ↦ rw e (upsert-Holds _ now c (due_reconcile key (issue_at key c.state)) h)
        | inr e ↦ rw e h
      ]

  upsert_issues-Holds :
      (mode now : String) (keys : List String) (c : Coordinator)
      → Holds c
      → Holds (upsert_issues mode now keys c)
  unfolding upsert_issues
  upsert_issues-Holds mode now [] c h = h
  upsert_issues-Holds mode now (key ∷ keys) c h =
      upsert_issues-Holds mode now keys _
        (upsert_reconcile-Holds now key _ (upsert_triage-Holds mode now key c h))

  pub upserts-Holds :
      (mode now : String) (keys : List String) (c : Coordinator)
      → roles ≡ c.scout_roles
      → Holds c
      → Holds (upsert_issues mode now keys (upsert_sync now (upsert_scouts now c.scout_roles c)))
  upserts-Holds mode now keys c same h =
      upsert_issues-Holds mode now keys _
        (upsert_sync-Holds now _ (upsert_scouts-Holds now c.scout_roles c (λ r m. rw same m) h))
