-- ===== src/Scheduler/Sync/Requeued.antt =====
-- A reconcile that runs, behind syncServiceTasks.
use nana.Prelude.{
  ℕ, String, Bool, true, false, ◌&&◌, List, [], ◌∷◌, ◌==◌, keys_of, ◌≡◌, ◌⊎◌, inl, inr, sym, ap,
  arith, eq_iff, Bool-cases,
}
use Prim.Native.Char.{code}
use Prim.Native.String.{◌++◌}
use text.Mathlib.TextLemmas.{cons-append}
use nana.Scheduler.State.{
  reconcile, scout, triage, issue_sync, ServiceTask, WorkState, Coordinator, task_at,
  start_service_task_key,
}
use nana.Scheduler.Select.{service_queue}
use nana.Scheduler.Service.{merged_task}
use nana.Scheduler.Sync.{sync_tasks}
use nana.Prelude.{member, lookup-no_key}
use nana.Scheduler.Sync.Reset.{reset_task, reset_tasks}
use nana.Scheduler.Sync.Setup.{reset_tasks-IsSameSetup}
use nana.Scheduler.Sync.Turn.{turned, turned-reconcile, task_at-reset_task}
use nana.Scheduler.Sync.Due.{scout_desired, sync_desired, triage_desired, reconcile_desired}
use nana.Scheduler.Sync.Kept.{IsDue, due_scout, due_sync, due_triage, due_reconcile, upserts-Holds}

abbrev pub is_empty : List String → Bool
is_empty [] = true
is_empty (k ∷ ks) = false

-- It waits in the service queue under its own key, for nothing.
unfoldable pub is_waiting : String → ServiceTask → Bool
is_waiting key task =
    task.id == key
    && task.queue == service_queue
    && task.status == "queued"
    && task.wait_cycle == ""
    && task.wait_until == ""
    && is_empty task.dependency_keys

-- It runs, and would wait so.
unfoldable pub is_in_flight : String → ServiceTask → Bool
is_in_flight key task =
    task.status == "running" && is_waiting key (record task { status = "queued" })

-- The first letter of a key tells the kinds apart.
first : String → ℕ
first String.[] = 0
first (String.◌∷◌ c s) = code c

differ : (s t : String) → ((first s ≡ first t) → ⊥) → (s == t) ≡ false
differ s t no_path = elim (Bool-cases (s == t)) [
  | inl h ↦ absurd (no_path (ap first ((eq_iff s t).0 h)))
  | inr h ↦ h
]

module _ (k : String) where
  firsts :
      (first (start_service_task_key scout k) ≡ 115)
      × (first (start_service_task_key issue_sync k) ≡ 105)
      × (first (start_service_task_key triage k) ≡ 116)
      × (first (start_service_task_key reconcile k) ≡ 114)
  unfolding first start_service_task_key
  firsts = (
    ap first (cons-append "s" "cout" (":" ++ k)),
    ap first (cons-append "i" "ssue-sync" (":" ++ k)),
    ap first (cons-append "t" "riage" (":" ++ k)),
    ap first (cons-append "r" "econcile" (":" ++ k)),
  )

pub reconcile_key-named :
    (issue_key : String) → ("" == start_service_task_key reconcile issue_key) ≡ false
unfolding first
reconcile_key-named issue_key = differ "" _ (λ e. ground (arith, e, firsts issue_key))

due-is_waiting :
    (issue_key : String) (roles : List String) (desired : ServiceTask)
    → IsDue roles desired
    → (now : String) (current : ServiceTask)
    → ((desired.id == start_service_task_key reconcile issue_key) ≡ false)
      ⊎ (is_waiting (start_service_task_key reconcile issue_key) current ≡ true
          → is_waiting
              (start_service_task_key reconcile issue_key)
              (merged_task now current desired)
            ≡ true)
unfolding scout_desired sync_desired triage_desired reconcile_desired is_waiting
due-is_waiting issue_key roles _ (due_scout cycle_id role m) now current =
    inl (differ _ _ (λ e. ground (arith, e, firsts role, firsts issue_key)))
due-is_waiting issue_key roles _ (due_sync cycle_id all) now current =
    inl (differ _ _ (λ e. ground (arith, e, firsts cycle_id, firsts issue_key)))
due-is_waiting issue_key roles _ (due_triage cycle_id key issue state) now current =
    inl (differ _ _ (λ e. ground (arith, e, firsts key, firsts issue_key)))
due-is_waiting issue_key roles _ (due_reconcile key issue) now current =
    elim (Bool-cases
      (start_service_task_key reconcile key == start_service_task_key reconcile issue_key)) [
        | inr e ↦ inl e
        | inl e ↦ inr (λ h. rw e (ground (arith, h)))
      ]

-- The loop over the stored tasks queues it: what holds of it in front of its turn, and behind.
module _ (active : List String) (now key : String) where
  abbrev pub Runs : Coordinator → Type 0
  Runs c =
      ((task_at key c.state).kind ≡ reconcile) × (is_in_flight key (task_at key c.state) ≡ true)

  abbrev Waits : Coordinator → Type 0
  Waits c = ((task_at key c.state).kind ≡ reconcile) × (is_waiting key (task_at key c.state) ≡ true)

  turned-Waits :
      (c : Coordinator) (task : ServiceTask)
      → task.kind ≡ reconcile
      → (is_in_flight key task ≡ true) ⊎ (is_waiting key task ≡ true)
      → ((turned active now c task).kind ≡ reconcile)
        × (is_waiting key (turned active now c task) ≡ true)
  unfolding is_in_flight is_waiting
  turned-Waits c task k h =
      rw (turned-reconcile active now c task k) (elim (Bool-cases (task.status == "running")) [
        | inl e ↦ rw e (k, elim h [ inl f ↦ ground (arith, f) | inr f ↦ ground (arith, f) ])
        | inr e ↦ rw e (k, elim h [ inl f ↦ absurd (ground (arith, f, e)) | inr f ↦ f ])
      ])

  reset_task-Waits : (k : String) (c : Coordinator) → Waits c → Waits (reset_task active now k c)
  reset_task-Waits k c w =
      rw (task_at-reset_task active now k key c) (elim (Bool-cases (k == key)) [
        | inl e ↦ rw (e, (eq_iff k key).0 e) (turned-Waits c (task_at key c.state) w.0 (inr w.1))
        | inr e ↦ rw e w
      ])

  reset_task-Runs :
      (k : String) (c : Coordinator)
      → Runs c
      → (((k == key) ≡ true) × Waits (reset_task active now k c))
        ⊎ (((k == key) ≡ false) × Runs (reset_task active now k c))
  reset_task-Runs k c r = elim (Bool-cases (k == key)) [
    | inl e ↦ inl (
      e,
      rw (task_at-reset_task active now k key c)
          (rw (e, (eq_iff k key).0 e) (turned-Waits c (task_at key c.state) r.0 (inl r.1))),
    )
    | inr e ↦ inr (e, rw (task_at-reset_task active now k key c) (rw e r))
  ]

  reset_tasks-Waits :
      (keys : List String) (c : Coordinator)
      → (Runs c × (member key keys ≡ true)) ⊎ Waits c
      → Waits (reset_tasks active now keys c)
  unfolding reset_tasks member
  reset_tasks-Waits [] c h = elim h [ inl r ↦ absurd (ground (arith, r.1)) | inr w ↦ w ]
  reset_tasks-Waits (k ∷ keys) c h = reset_tasks-Waits keys (reset_task active now k c) (elim h [
    | inr w ↦ inr (reset_task-Waits k c w)
    | inl r ↦ elim (reset_task-Runs k c r.0) [
      | inl w ↦ inr w.1
      | inr s ↦ inl (s.1, ground (arith, r.1, s.0))
    ]
  ])

  Runs-member :
      (c : Coordinator) → Runs c → member key (keys_of (WorkState.service_tasks c.state)) ≡ true
  unfolding task_at is_in_flight
  Runs-member c r = elim (Bool-cases (member key (keys_of (WorkState.service_tasks c.state)))) [
    | inl m ↦ m
    | inr m ↦
        absurd (ground (arith, rw (lookup-no_key key (WorkState.service_tasks c.state) m) at r.1))
  ]

pub requeued-is_waiting :
    (active : List String) (mode now issue_key : String) (c : Coordinator)
    → Runs active now (start_service_task_key reconcile issue_key) c
    → is_waiting (start_service_task_key reconcile issue_key) (
        task_at
          (start_service_task_key reconcile issue_key)
          (Coordinator.state (sync_tasks mode active now c)))
      ≡ true
unfolding sync_tasks
requeued-is_waiting active mode now issue_key c r =
    let key = start_service_task_key reconcile issue_key in
    let keys = keys_of (WorkState.service_tasks c.state) in
    upserts-Holds (is_waiting key) key c.scout_roles (due-is_waiting issue_key c.scout_roles) mode
      now _ (reset_tasks active now keys c) (sym (reset_tasks-IsSameSetup active now keys c).roles)
      (reset_tasks-Waits active now key keys c (inl (r, Runs-member active now key c r))).1
