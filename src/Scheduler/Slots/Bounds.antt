-- ===== src/Scheduler/Slots/Bounds.antt =====
-- One repository keeps no more workers busy than its option says.
use nana.Prelude.{
  leb, ℕ, zero, suc, ◌+◌, ◌-◌, ◌≤◌, String, Bool, Option, none, some, List, [], ◌∷◌, ◌==◌,
  if◌then◌else◌, put, length, ◌≡◌, refl, ap, arith, Bool-cases, Option-cases, inl, inr,
}
use nana.Scheduler.State.{
  IssueState, ServiceTask, PlannedItem, ScoutJob, Task, TaskKind, Coordinator, written, put_issue,
  put_task, put_item, put_job, implementation, scout_job, planned_launch,
}
use nana.Scheduler.Select.{Selection, select_next_task, implementation_queue}
use nana.Scheduler.Begin.{begin, mark_task_started}
use nana.Scheduler.Slots.Busy.{busy_workers, active_workers-busy_workers}
use nana.Scheduler.Slots.{
  count_entries, implementation_in_progress, active_workers, available_worker_slots, Filled,
  with_task, fill_slots, fill_available, is_in_progress, is_running, is_running_service,
  is_launching,
}

count_entries-put {ℓ} :
    {V : Type ℓ} (test : V → Bool) (k : String) (v : V) (m : List (String × V))
    → count_entries test (put k v m) ≤ suc (count_entries test m)
unfolding put
count_entries-put test k v [] = elim (Bool-cases (test v)) [
  | inl e ↦ rw e (omega arith)
  | inr e ↦ rw e (omega arith)
]
count_entries-put test k v ((j, w) ∷ m) =
    let ih = count_entries-put test k v m in
    elim (Bool-cases (j == k)) [ inl e ↦ rw e (ground arith) | inr e ↦ rw e (ground (arith, ih)) ]

put_issue-active :
    (k : String) (v : IssueState) (c : Coordinator)
    → active_workers (Coordinator.state (put_issue k v c)) ≤ suc (active_workers c.state)
unfolding active_workers implementation_in_progress put_issue
put_issue-active k v c =
    let more = count_entries-put is_in_progress k v c.state.issues in omega (arith, more)

put_job-active :
    (k : String) (v : ScoutJob) (c : Coordinator)
    → active_workers (Coordinator.state (put_job k v c)) ≤ suc (active_workers c.state)
unfolding active_workers implementation_in_progress put_job
put_job-active k v c =
    let more = count_entries-put is_running k v c.state.scout_jobs in omega (arith, more)

put_item-active :
    (k : String) (v : PlannedItem) (c : Coordinator)
    → active_workers (Coordinator.state (put_item k v c)) ≤ suc (active_workers c.state)
unfolding active_workers implementation_in_progress put_item
put_item-active k v c =
    let more = count_entries-put is_launching k v c.state.planned_items in omega (arith, more)

put_task-active :
    (k : String) (v : ServiceTask) (c : Coordinator)
    → active_workers (Coordinator.state (put_task k v c)) ≤ suc (active_workers c.state)
unfolding active_workers implementation_in_progress put_task
put_task-active k v c =
    let more = count_entries-put is_running_service k v c.state.service_tasks in omega (arith, more)

-- The start of a task makes at most one worker more busy.
begin-active :
    (kind : TaskKind) (now : String) (task : Task) (c : Coordinator)
    → active_workers (Coordinator.state (begin kind now task c)) ≤ suc (active_workers c.state)
unfolding begin
begin-active implementation now task c = put_issue-active task.issue_key _ c
begin-active scout_job now task c = put_job-active task.scout_job_id _ c
begin-active planned_launch now task c = put_item-active task.planned_item_id _ c
begin-active _ now task c = put_task-active task.key _ c

mark_task_started-state :
    (write : Option String) (now : String) (task : Task) (c : Coordinator)
    → Coordinator.state (mark_task_started write now task c).0
      ≡ Coordinator.state (begin task.kind now task c)
unfolding mark_task_started written
mark_task_started-state none now task c = refl
mark_task_started-state (some e) now task c = refl

select_next_task-state :
    (service jobs : List Task) (c : Coordinator)
    → Coordinator.state (Selection.coordinator (select_next_task service jobs c)) ≡ c.state
unfolding select_next_task
select_next_task-state [] [] c = refl
select_next_task-state [] (t ∷ jobs) c = refl
select_next_task-state (t ∷ service) [] c = refl
select_next_task-state (s ∷ service) (t ∷ jobs) c =
    elim (Bool-cases (c.next_queue == implementation_queue)) [
      | inl e ↦ rw e refl
      | inr e ↦ rw e refl
    ]

module _ (write : Task → Option String) (now : String) where
  -- The loop makes at most as many workers busy as it may, and so launches no more tasks.
  fill_slots-active :
      (available : ℕ) (service jobs : List Task) (c : Coordinator)
      → (active_workers
            (Coordinator.state (Filled.coordinator (fill_slots write now available service jobs c)))
          ≤ available + active_workers c.state)
        × (length (Filled.launched (fill_slots write now available service jobs c)) ≤ available)
  unfolding fill_slots
  fill_slots-active zero service jobs c = (omega arith, omega arith)
  fill_slots-active (suc available) service jobs c =
      let s = select_next_task service jobs c in
      let same = ap active_workers (select_next_task-state service jobs c) in
      elim (Option-cases (Selection.task s)) [
        | inl n ↦ rw (fill_slots, n) (omega (arith, same), omega arith)
        | inr (task, t) ↦
            let d = mark_task_started (write task) now task (Selection.coordinator s) in
            let marks =
              ap active_workers
                (mark_task_started-state (write task) now task (Selection.coordinator s)) in
            let more = begin-active task.kind now task (Selection.coordinator s) in
            elim (Option-cases d.1) [
              | inr (e, m) ↦ rw (fill_slots, t, m) (omega (arith, same, marks, more), omega arith)
              | inl m ↦
                  let ih =
                    fill_slots-active available (Selection.service s) (Selection.implementation s)
                      (with_task task d.0) in
                  let busy = ih.0 in
                  let few = ih.1 in
                  rw (fill_slots, t, m) (omega (arith, same, marks, more, busy), omega (arith, few))
            ]
      ]

length-put {ℓ} :
    {V : Type ℓ} (k : String) (v : V) (m : List (String × V)) → length (put k v m) ≤ suc (length m)
unfolding put
length-put k v [] = omega arith
length-put k v ((j, w) ∷ m) = let ih = length-put k v m in ground (arith, ih)

begin-running :
    (kind : TaskKind) (now : String) (task : Task) (c : Coordinator)
    → Coordinator.running (begin kind now task c) ≡ c.running
unfolding begin put_issue put_task put_item put_job
begin-running implementation now task c = refl
begin-running scout_job now task c = refl
begin-running planned_launch now task c = refl
begin-running _ now task c = refl

mark_task_started-running :
    (write : Option String) (now : String) (task : Task) (c : Coordinator)
    → Coordinator.running (mark_task_started write now task c).0 ≡ c.running
unfolding mark_task_started written
mark_task_started-running none now task c = begin-running task.kind now task c
mark_task_started-running (some e) now task c = begin-running task.kind now task c

select_next_task-running :
    (service jobs : List Task) (c : Coordinator)
    → Coordinator.running (Selection.coordinator (select_next_task service jobs c)) ≡ c.running
unfolding select_next_task
select_next_task-running [] [] c = refl
select_next_task-running [] (t ∷ jobs) c = refl
select_next_task-running (t ∷ service) [] c = refl
select_next_task-running (s ∷ service) (t ∷ jobs) c =
    elim (Bool-cases (c.next_queue == implementation_queue)) [
      | inl e ↦ rw e refl
      | inr e ↦ rw e refl
    ]

module _ (write : Task → Option String) (now : String) where
  fill_slots-running :
      (available : ℕ) (service jobs : List Task) (c : Coordinator)
      → length
          (Coordinator.running (Filled.coordinator (fill_slots write now available service jobs c)))
        ≤ available + length c.running
  unfolding fill_slots
  fill_slots-running zero service jobs c = omega arith
  fill_slots-running (suc available) service jobs c =
      let s = select_next_task service jobs c in
      let same = ap length (select_next_task-running service jobs c) in
      elim (Option-cases (Selection.task s)) [
        | inl n ↦ rw (fill_slots, n) (omega (arith, same))
        | inr (task, t) ↦
            let d = mark_task_started (write task) now task (Selection.coordinator s) in
            let marks =
              ap length
                (mark_task_started-running (write task) now task (Selection.coordinator s)) in
            elim (Option-cases d.1) [
              | inr (e, m) ↦ rw (fill_slots, t, m) (omega (arith, same, marks))
              | inl m ↦
                  let ih =
                    fill_slots-running available (Selection.service s) (Selection.implementation s)
                      (with_task task d.0) in
                  let more = length-put task.key task (Coordinator.running d.0) in
                  rw (fill_slots, t, m) (omega (arith, same, marks, more, ih))
            ]
      ]

  -- A turn of run keeps the issues in progress, the running scout jobs and service tasks, and the
  -- planned items that are being launched, together within options.Parallel, or at most as many as they
  -- were where they were more; and where fewer of these were there, it launches no more tasks, and puts
  -- no more into workers' hands, than were missing from options.Parallel. A task in a worker's hands
  -- whose stored status is another is not counted.
  pub fill_available-bound :
      (parallel : ℕ) (service jobs : List Task) (c : Coordinator)
      → let f = fill_available write now parallel service jobs c in
        (busy_workers (Coordinator.state f.coordinator)
          ≤ (if leb (busy_workers c.state) parallel then parallel else busy_workers c.state))
        × (length f.launched ≤ parallel - busy_workers c.state)
        × (length (Coordinator.running f.coordinator)
            ≤ (parallel - busy_workers c.state) + length c.running)
  unfolding fill_available available_worker_slots
  fill_available-bound parallel service jobs c =
      let free = parallel - active_workers c.state in
      let after =
        Coordinator.state (Filled.coordinator (fill_slots write now free service jobs c)) in
      let both = fill_slots-active write now free service jobs c in
      let busy = both.0 in
      rw (← (active_workers-busy_workers c.state), ← (active_workers-busy_workers after))
        (ground (arith, busy), both.1, fill_slots-running free service jobs c)
