-- ===== src/Scheduler/Sync/Settled.antt =====
-- What a service task can be behind syncServiceTasks.
use nana.Prelude.{
  String, Bool, true, false, none, some, List, [], ◌∷◌, ◌==◌, lookup, member, keys_of,
  lookup-no_key, ◌≡◌, ◌⊎◌, inl, inr, refl, sym, arith, Bool-cases,
}
use nana.Scheduler.State.{ServiceTask, WorkState, Coordinator, task_at}
use nana.Scheduler.Sync.Reset.{is_recovering, reset_task, reset_tasks}
use nana.Scheduler.Sync.Due.{scout_desired, sync_desired, triage_desired, reconcile_desired}
use nana.Scheduler.Service.{merged_task}
use nana.Prelude.{Option, is_some, trim_space}
use nana.Scheduler.State.{PlannedItem, put_item}
use nana.Scheduler.Sync.{
  Stored, missing, unreadable, stored, merge_items, active_owners, sync_behind_read,
  sync_service_tasks, sync_tasks,
}
use nana.Scheduler.Sync.Setup.{
  IsSameSetup, IsSameSetup-if, put_item-IsSameSetup, IsSameSetup-refl, IsSameSetup-trans,
  reset_task-IsSameSetup, reset_tasks-IsSameSetup,
}
use nana.Scheduler.Sync.Turn.{
  is_settled, task_at-reset_task, turned-is_settled, zero_task-is_settled,
}
use nana.Scheduler.Sync.Kept.{IsDue, due_scout, due_sync, due_triage, due_reconcile, upserts-Holds}

-- The whole loop: the keys that are in it, and those that no task has.
reset_task-settled :
    (active : List String) (now k j : String) (c : Coordinator)
    → ((k == j) ≡ true) ⊎ (is_settled active c.repo_slug c.scout_roles (task_at j c.state) ≡ true)
    → is_settled active c.repo_slug c.scout_roles
        (task_at j (Coordinator.state (reset_task active now k c)))
      ≡ true
reset_task-settled active now k j c before = elim (Bool-cases (k == j)) [
  | inl h ↦
      rw (task_at-reset_task active now k j c)
        (rw h (turned-is_settled active now c (task_at k c.state)))
  | inr h ↦
      rw (task_at-reset_task active now k j c)
        (rw h (elim before [ inl e ↦ absurd (ground (arith, e, h)) | inr e ↦ e ]))
]

pub is_settled-as :
    (active : List String) {a b : String} {r s : List String}
    → a ≡ b
    → r ≡ s
    → (task : ServiceTask) → is_settled active a r task ≡ true
    → is_settled active b s task ≡ true
is_settled-as active p q task h = rw (sym p, sym q) h

reset_tasks-settled_at :
    (active : List String) (now j : String) (keys : List String) (c : Coordinator)
    → (member j keys ≡ true)
      ⊎ (is_settled active c.repo_slug c.scout_roles (task_at j c.state) ≡ true)
    → is_settled active c.repo_slug c.scout_roles
        (task_at j (Coordinator.state (reset_tasks active now keys c)))
      ≡ true
unfolding reset_tasks member
reset_tasks-settled_at active now j [] c before = elim before [
  | inl e ↦ absurd (ground (arith, e))
  | inr e ↦ e
]
reset_tasks-settled_at active now j (k ∷ keys) c before =
    let same = reset_task-IsSameSetup active now k c in
    let turn = reset_task-settled active now k j c in
    is_settled-as active same.repo_slugs same.roles _ (
      reset_tasks-settled_at active now j keys (reset_task active now k c)
        (elim (Bool-cases (k == j)) [
          | inl h ↦
              inr (is_settled-as active (sym same.repo_slugs) (sym same.roles) _ (turn (inl h)))
          | inr h ↦ elim before [
            | inl e ↦ inl (ground (arith, e, h))
            | inr e ↦
                inr (is_settled-as active (sym same.repo_slugs) (sym same.roles) _ (turn (inr e)))
          ]
        ]))

-- Behind the loop over all stored tasks.
pub reset_tasks-is_settled :
    (active : List String) (now j : String) (c : Coordinator)
    → is_settled active c.repo_slug c.scout_roles (
        task_at j (
          Coordinator.state (reset_tasks active now (keys_of (WorkState.service_tasks c.state)) c)))
      ≡ true
unfolding task_at
reset_tasks-is_settled active now j c =
    reset_tasks-settled_at active now j (keys_of (WorkState.service_tasks c.state)) c
      (elim (Bool-cases (member j (keys_of (WorkState.service_tasks c.state)))) [
        | inl h ↦ inl h
        | inr h ↦ inr (
            rw (lookup-no_key j (WorkState.service_tasks c.state) h)
              (zero_task-is_settled active c.repo_slug c.scout_roles))
      ])

due-is_settled :
    (active : List String) (slug : String) (roles : List String) (desired : ServiceTask)
    → IsDue roles desired
    → (now : String) (current : ServiceTask)
    → is_settled active slug roles (merged_task now current desired) ≡ true
unfolding is_settled is_recovering scout_desired sync_desired triage_desired reconcile_desired
due-is_settled active slug roles _ (due_scout cycle_id role m) now current = rw m refl
due-is_settled active slug roles _ (due_sync cycle_id all) now current = refl
due-is_settled active slug roles _ (due_triage cycle_id key issue state) now current = refl
due-is_settled active slug roles _ (due_reconcile key issue) now current = refl

pub sync_tasks-is_settled :
    (mode : String) (active : List String) (now key : String) (c : Coordinator)
    → is_settled active c.repo_slug c.scout_roles
        (task_at key (Coordinator.state (sync_tasks mode active now c)))
      ≡ true
unfolding sync_tasks
sync_tasks-is_settled mode active now key c =
    let same = reset_tasks-IsSameSetup active now (keys_of (WorkState.service_tasks c.state)) c in
    upserts-Holds (is_settled active c.repo_slug c.scout_roles) key c.scout_roles
      (λ desired due t current.
        inr (λ h. due-is_settled active c.repo_slug c.scout_roles desired due t current))
      mode now _ (reset_tasks active now (keys_of (WorkState.service_tasks c.state)) c)
      (sym same.roles) (reset_tasks-is_settled active now key c)

-- The items that are merged in front of it are no tasks.
merge_items-IsSameSetup :
    (items : List (String × PlannedItem)) (c : Coordinator) → IsSameSetup c (merge_items items c)
unfolding merge_items
merge_items-IsSameSetup [] c = IsSameSetup-refl c
merge_items-IsSameSetup ((id, item) ∷ items) c =
    IsSameSetup-trans
      (IsSameSetup-if (is_some (lookup id (WorkState.planned_items c.state))) c c
        (put_item id item c) (IsSameSetup-refl c) (put_item-IsSameSetup id item c))
      (merge_items-IsSameSetup items _)

sync_behind_read-is_settled :
    (write : Option String) (active : List String) (mode now key : String) (a c : Coordinator)
    → IsSameSetup a c
    → is_settled active a.repo_slug a.scout_roles (
        task_at key
          (Coordinator.state (sync_behind_read write (active_owners active) mode now c).0))
      ≡ true
unfolding sync_behind_read
sync_behind_read-is_settled none active mode now key a c same =
    is_settled-as active same.repo_slugs same.roles _ (sync_tasks-is_settled mode active now key c)
sync_behind_read-is_settled (some e) active mode now key a c same =
    is_settled-as active same.repo_slugs same.roles _ (sync_tasks-is_settled mode active now key c)

-- The state file was read, or there was none to read.
abbrev pub is_read : Stored → Bool
is_read (unreadable e) = false
is_read _ = true

-- Behind a sync of the service tasks that could read the state file and the recovery records, whether or not
-- it can write, no task is a planned launch, none runs but a triage that is being recovered, and each
-- scout that is queued is due.
pub sync_service_tasks-is_settled :
    (persisted : Stored) (write : Option String) (active : List String) (mode now key : String)
    (c : Coordinator)
    → is_read persisted ≡ true
    → is_settled active c.repo_slug c.scout_roles (
        task_at key (
          Coordinator.state
            (sync_service_tasks persisted write (active_owners active) mode now c).0))
      ≡ true
unfolding sync_service_tasks
sync_service_tasks-is_settled missing write active mode now key c r =
    sync_behind_read-is_settled write active mode now key c c (IsSameSetup-refl c)
sync_service_tasks-is_settled (unreadable e) write active mode now key c r =
    absurd (ground (arith, r))
sync_service_tasks-is_settled (stored items) write active mode now key c r =
    sync_behind_read-is_settled write active mode now key c _ (
      IsSameSetup-if (trim_space c.repo_slug == "") c c (merge_items items c) (IsSameSetup-refl c)
        (merge_items-IsSameSetup items c))
