-- ===== src/Scheduler/Queues/Again.antt =====
-- The service queue behind a sync of the service tasks, for a reconcile that a worker still has.
use nana.Prelude.{
  ℕ, String, Bool, true, false, not, ◌&&◌, ◌||◌, Option, none, some, List, [], ◌∷◌, ◌==◌, lookup,
  keys_of, ◌≡◌, inl, inr, refl, ap, ◌∙◌, arith, eq_iff, Bool-cases, Option-cases,
}
use mathlib.Core.List.{◌++◌ as append}
use nana.Scheduler.State.{
  reconcile, ServiceTask, WorkState, Task, Coordinator, task_at, start_service_task_key,
}
use nana.Scheduler.Service.{service_task_ready}
use nana.Scheduler.Sync.{sync_tasks}
use nana.Scheduler.Sync.Reset.{reset_tasks}
use nana.Scheduler.Sync.Setup.{IsSameSetup, reset_tasks-IsSameSetup}
use nana.Scheduler.Service.{all_met}
use nana.Scheduler.Queues.Offers.{with_offer, service_repo_task}
use nana.Scheduler.Sync.Due.{is_running}
use nana.Scheduler.Queues.Identifiers.{parse_scoped_id}
use nana.Scheduler.Queues.Offers.{
  Listed, is_still_ahead, service_task_offered, service_queue_offer, service_offers,
  build_service_queue,
}
use nana.Prelude.{and_left, and_right}
use nana.Scheduler.Sync.Setup.{upserts-IsSameSetup}
use nana.Scheduler.Sync.Setup.{IsSameSetup-trans}
use nana.Scheduler.Sync.Requeued.{reconcile_key-named}
use nana.Scheduler.Sync.Requeued.{is_empty, is_waiting, is_in_flight, requeued-is_waiting}

-- A queue has a task with the key.
unfoldable pub has_key : String → List Task → Bool
has_key key [] = false
has_key key (task ∷ tasks) = let rest = has_key key tasks in task.key == key || rest

has_key-append :
    (key : String) (xs ys : List Task) → has_key key ys ≡ true → has_key key (append xs ys) ≡ true
unfolding has_key
has_key-append key [] ys h = h
has_key-append key (x ∷ xs) ys h = ground (arith, has_key-append key xs ys h)

-- The database lists the service task as queued.
abbrev is_named : String → Option String → Bool
is_named key none = false
is_named key (some id) = id == key

unfoldable pub is_listed : String → List Listed → Bool
is_listed key [] = false
is_listed key (item ∷ items) =
    let rest = is_listed key items in
    (item.kind == "service_task" && is_named key (parse_scoped_id "service-task:" item.id)) || rest

empty_met :
    (keys : List String) (state : WorkState) → is_empty keys ≡ true → all_met keys state ≡ true
empty_met [] state h = refl
empty_met (key ∷ keys) state h = absurd (ground (arith, h))

blank_not_pending :
    (parse_time : String → Option ℕ) (now : ℕ) (text : String)
    → parse_time "" ≡ none
    → text ≡ ""
    → is_still_ahead parse_time now text ≡ false
unfolding is_still_ahead
blank_not_pending parse_time now text blank e = rw (is_still_ahead, e, blank) refl

with_offer-has_key :
    (key : String) (offer : Option Task) (tasks : List Task)
    → has_key key tasks ≡ true
    → has_key key (with_offer offer tasks) ≡ true
unfolding has_key
with_offer-has_key key none tasks h = h
with_offer-has_key key (some task) tasks h = ground (arith, h)

named_key : (key : String) (name : Option String) → is_named key name ≡ true → name ≡ some key
named_key key none h = absurd (ground (arith, h))
named_key key (some id) h = ap some ((eq_iff id key).0 h)

is_waiting-offered :
    (parse_time : String → Option ℕ) (now : ℕ) (key : String) (task : ServiceTask) (c : Coordinator)
    → parse_time "" ≡ none
    → is_waiting key task ≡ true
    → service_task_offered parse_time now c task ≡ true
unfolding is_waiting service_task_offered is_still_ahead service_task_ready
is_waiting-offered parse_time now key task c blank h =
    let pending =
      blank_not_pending parse_time now task.wait_until blank
        ((eq_iff task.wait_until "").0 (ground (arith, h))) in
    let met = empty_met task.dependency_keys c.state (ground (arith, h)) in
    ground (arith, h, pending, met)

service_offers-has_key :
    (parse_time : String → Option ℕ) (now : ℕ) (key : String) (task : ServiceTask)
    (items : List Listed) (c : Coordinator)
    → parse_time "" ≡ none
    → lookup key (WorkState.service_tasks c.state) ≡ some task
    → is_waiting key task ≡ true
    → is_listed key items ≡ true
    → has_key key (service_offers parse_time now c items) ≡ true
unfolding service_offers has_key is_listed service_queue_offer service_repo_task is_waiting
service_offers-has_key parse_time now key task [] c blank l h there = absurd (ground (arith, there))
service_offers-has_key parse_time now key task (item ∷ items) c blank l h there =
    elim (Bool-cases
      (item.kind == "service_task" && is_named key (parse_scoped_id "service-task:" item.id))) [
        | inr e ↦ with_offer-has_key key _ _ (
            service_offers-has_key parse_time now key task items c blank l h
              (ground (arith, there, e)))
        | inl e ↦
            rw
              (
                service_queue_offer,
                and_left (item.kind == "service_task") _ e,
                named_key key _ (and_right (item.kind == "service_task") _ e),
                l,
                is_waiting-offered parse_time now key task c blank h,
              )
              (ground (arith, h))
      ]

stored_waiting :
    (key : String) (state : WorkState)
    → is_waiting key (task_at key state) ≡ true
    → ("" == key) ≡ false
    → (task : ServiceTask) × (lookup key state.service_tasks ≡ some task)
      × (is_waiting key task ≡ true)
unfolding task_at is_waiting
stored_waiting key state w named = elim (Option-cases (lookup key state.service_tasks)) [
  | inl l ↦ absurd (ground (arith, named, rw l at w))
  | inr l ↦ (l.0, l.1, rw (l.1) at w)
]

sync_tasks-is_running :
    (mode : String) (active : List String) (now key : String) (c : Coordinator)
    → is_running key (sync_tasks mode active now c) ≡ is_running key c
unfolding sync_tasks is_running
sync_tasks-is_running mode active now key c =
    let keys = keys_of (WorkState.service_tasks c.state) in
    ap (λ running. elim (lookup key running) [ none ↦ false | some task ↦ not (task.key == "") ])
      (IsSameSetup.runs (
        IsSameSetup-trans (reset_tasks-IsSameSetup active now keys c)
          (upserts-IsSameSetup mode now _ _ (reset_tasks active now keys c))))

-- A reconcile of an issue that a worker still has, and that the database lists as queued, is offered
-- again behind the next sync of the service tasks, for a parser of times that takes no blank text: the sync puts
-- it back to queued, and the service queue does not look at what is running.
pub is_running-build_service_queue :
    (parse_time : String → Option ℕ) (time : ℕ) (mode : String) (active : List String)
    (now issue_key : String) (items : List Listed) (c : Coordinator)
    → parse_time "" ≡ none
    → (task_at (start_service_task_key reconcile issue_key) c.state).kind ≡ reconcile
    → is_in_flight
        (start_service_task_key reconcile issue_key)
        (task_at (start_service_task_key reconcile issue_key) c.state)
      ≡ true
    → is_running (start_service_task_key reconcile issue_key) c ≡ true
    → is_listed (start_service_task_key reconcile issue_key) items ≡ true
    → let synced = sync_tasks mode active now c in
      (is_running (start_service_task_key reconcile issue_key) synced ≡ true)
      × (has_key
            (start_service_task_key reconcile issue_key)
            (build_service_queue parse_time time (some items) synced)
          ≡ true)
unfolding build_service_queue
is_running-build_service_queue parse_time time mode active now issue_key items c blank k f r there =
    let key = start_service_task_key reconcile issue_key in
    let synced = sync_tasks mode active now c in
    let s =
      stored_waiting key (Coordinator.state synced)
        (requeued-is_waiting active mode now issue_key c (k, f)) (reconcile_key-named issue_key) in
    (
      sync_tasks-is_running mode active now key c ∙ r,
      has_key-append key _ _
          (service_offers-has_key parse_time time key s.0 items synced blank s.1 s.2 there),
    )
