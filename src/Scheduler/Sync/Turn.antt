-- ===== src/Scheduler/Sync/Turn.antt =====
-- The turn of the loop over the stored tasks for one of them.
use nana.Prelude.{
  String, Bool, true, false, not, ◌&&◌, ◌||◌, List, ◌==◌, if◌then◌else◌, member, lookup-delete, ◌≡◌,
  inl, inr, refl, arith, eq_iff, eq_refl, ◌∙◌, Bool-cases,
}
use nana.Scheduler.State.{reconcile, ServiceTask, WorkState, Coordinator, task_at, zero_task}
use nana.Scheduler.Stored.{task_at-put_task, task_at-put_issue}
use nana.Scheduler.Sync.Reset.{
  is_triage, is_scout, is_planned_launch, is_recovering, requeued_task, rested_task,
  requeue_running, rest_scout, drop_task, reset_task,
}
use nana.Scheduler.Sync.Setup.{requeue_running-IsSameSetup}

-- It is no planned launch, it runs only as a triage that is being recovered, and a queued scout is due.
unfoldable pub is_settled : List String → String → List String → ServiceTask → Bool
is_settled active repo_slug roles task =
    not (is_planned_launch task.kind)
    && (not (task.status == "running") || is_recovering active repo_slug task)
    && (not (is_scout task.kind && task.status == "queued") || member task.scout_role roles)

-- The loop's turn for a key: what it stores there, and that it leaves the other tasks.
task_at-drop_task :
    (k j : String) (c : Coordinator)
    → task_at j (Coordinator.state (drop_task k c))
      ≡ (if k == j then zero_task else task_at j c.state)
unfolding drop_task task_at
task_at-drop_task k j c = ground (arith, lookup-delete k j (WorkState.service_tasks c.state))

task_at-requeue_running :
    (now k j : String) (task : ServiceTask) (c : Coordinator)
    → task_at j (Coordinator.state (requeue_running now k task c))
      ≡ (if k == j then requeued_task now task else task_at j c.state)
unfolding requeue_running
task_at-requeue_running now k j task c =
    elim (Bool-cases (is_triage task.kind && not (task.issue_key == ""))) [
      | inl h ↦ rw h (task_at-put_issue _ j _ _ ∙ task_at-put_task k j _ c)
      | inr h ↦ rw h (task_at-put_task k j _ c)
    ]

same_at : (k j : String) (f : String → ServiceTask) → f j ≡ (if k == j then f k else f j)
same_at k j f = elim (Bool-cases (k == j)) [
  | inl h ↦ rw h (rw ((eq_iff k j).0 h) refl)
  | inr h ↦ rw h refl
]

rested : String → String → List String → ServiceTask → ServiceTask
rested now cycle_id roles task =
    if is_scout task.kind && task.status == "queued" && not (member task.scout_role roles)
    then rested_task now cycle_id task
    else task

task_at-rest_scout :
    (now k j : String) (c : Coordinator)
    → task_at j (Coordinator.state (rest_scout now k c)) ≡ (
        if k == j
        then rested now c.cycle_id c.scout_roles (task_at k c.state)
        else task_at j c.state)
unfolding rest_scout rested
task_at-rest_scout now k j c =
    elim (Bool-cases (
      is_scout (task_at k c.state).kind
      && (task_at k c.state).status == "queued"
      && not (member (task_at k c.state).scout_role c.scout_roles))) [
        | inl h ↦ rw (h, rested) (task_at-put_task k j _ c)
        | inr h ↦ rw (h, rested) (same_at k j (λ i. task_at i c.state))
      ]

else_same :
    (b : Bool) (v w x : ServiceTask)
    → (if b then v else (if b then w else x)) ≡ (if b then v else x)
else_same true v w x = refl
else_same false v w x = refl

task_at-requeued_rested :
    (now k j : String) (task : ServiceTask) (c : Coordinator)
    → task_at j (Coordinator.state (rest_scout now k (requeue_running now k task c))) ≡ (
        if k == j
        then rested now c.cycle_id c.scout_roles (requeued_task now task)
        else task_at j c.state)
task_at-requeued_rested now k j task c =
    let same = requeue_running-IsSameSetup now k task c in
    let own = task_at-requeue_running now k k task c in
    task_at-rest_scout now k j (requeue_running now k task c)
    ∙ rw (same.cycles, same.roles, own, eq_refl k, task_at-requeue_running now k j task c)
        (else_same (k == j) _ _ _)

-- What the turn stores under its key.
pub turned : List String → String → Coordinator → ServiceTask → ServiceTask
turned active now c task =
    if is_planned_launch task.kind
    then zero_task
    else if task.status == "running"
    then (if is_recovering active c.repo_slug task
        then task
        else rested now c.cycle_id c.scout_roles (requeued_task now task))
    else rested now c.cycle_id c.scout_roles task

pub zero_task-is_settled :
    (active : List String) (slug : String) (roles : List String)
    → is_settled active slug roles zero_task ≡ true
unfolding is_settled is_recovering
zero_task-is_settled active slug roles = refl

pub task_at-reset_task :
    (active : List String) (now k j : String) (c : Coordinator)
    → task_at j (Coordinator.state (reset_task active now k c))
      ≡ (if k == j then turned active now c (task_at k c.state) else task_at j c.state)
unfolding reset_task turned
task_at-reset_task active now k j c =
    elim (Bool-cases (is_planned_launch (task_at k c.state).kind)) [
      | inl h ↦ rw (h, turned) (task_at-drop_task k j c)
      | inr h ↦ elim (Bool-cases ((task_at k c.state).status == "running")) [
        | inr stays ↦ rw (h, stays, turned) (task_at-rest_scout now k j c)
        | inl runs ↦ elim (Bool-cases (is_recovering active c.repo_slug (task_at k c.state))) [
          | inl r ↦ rw (h, runs, r, turned) (same_at k j (λ i. task_at i c.state))
          | inr r ↦ rw (h, runs, r, turned) (task_at-requeued_rested now k j _ c)
        ]
      ]
    ]

rested-is_settled :
    (active : List String) (now slug cycle_id : String) (roles : List String) (task : ServiceTask)
    → is_planned_launch task.kind ≡ false
    → (task.status == "running") ≡ false
    → is_settled active slug roles (rested now cycle_id roles task) ≡ true
unfolding is_settled rested is_recovering
rested-is_settled active now slug cycle_id roles task p r =
    elim (Bool-cases
      (is_scout task.kind && task.status == "queued" && not (member task.scout_role roles))) [
        | inl h ↦ rw h (rw p (ground (arith, h)))
        | inr h ↦ rw h (ground (arith, h, p, r))
      ]

recovering-is_settled :
    (active : List String) (slug : String) (roles : List String) (task : ServiceTask)
    → is_planned_launch task.kind ≡ false
    → (task.status == "running") ≡ true
    → is_recovering active slug task ≡ true
    → is_settled active slug roles task ≡ true
unfolding is_settled
recovering-is_settled active slug roles task h runs r =
    ground (arith, h, runs, r, not_queued task.status runs)
  where
    not_queued : (status : String) → (status == "running") ≡ true → (status == "queued") ≡ false
    not_queued status e = rw ((eq_iff status "running").0 e) refl

pub turned-is_settled :
    (active : List String) (now : String) (c : Coordinator) (task : ServiceTask)
    → is_settled active c.repo_slug c.scout_roles (turned active now c task) ≡ true
unfolding turned
turned-is_settled active now c task = elim (Bool-cases (is_planned_launch task.kind)) [
  | inl h ↦ rw h (zero_task-is_settled active c.repo_slug c.scout_roles)
  | inr h ↦ elim (Bool-cases (task.status == "running")) [
    | inr stays ↦
        rw (h, stays)
          (rested-is_settled active now c.repo_slug c.cycle_id c.scout_roles task h stays)
    | inl runs ↦ elim (Bool-cases (is_recovering active c.repo_slug task)) [
      | inl r ↦
          rw (h, runs, r) (recovering-is_settled active c.repo_slug c.scout_roles task h runs r)
      | inr r ↦
          rw (h, runs, r)
            (rested-is_settled active now c.repo_slug c.cycle_id c.scout_roles
              (requeued_task now task) h refl)
    ]
  ]
]

-- A reconcile only ever is queued by its turn.
pub turned-reconcile :
    (active : List String) (now : String) (c : Coordinator) (task : ServiceTask)
    → task.kind ≡ reconcile
    → turned active now c task ≡ (if task.status == "running" then requeued_task now task else task)
unfolding turned rested is_recovering
turned-reconcile active now c task k = rw (turned, rested, k) refl
