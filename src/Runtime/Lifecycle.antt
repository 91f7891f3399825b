-- ===== src/Runtime/Lifecycle.antt =====
-- How dispatch records change (markNotified, markDelivered, markFailed and queueDispatch in
-- cmd/nana-runtime/main.go).
use nana.Prelude.{
  String, ◌≡◌, refl, Option, none, some, List, [], ◌∷◌, ◌++◌, Bool, true, false, arith, ◌==◌, ◌||◌,
  inl, inr, ◌⊎◌, Bool-cases, Option-cases, find_key, set_key,
}
use nana.Runtime.State.{
  pending, notified, delivered, failed, DispatchRecord, Engine, RuntimeError, Event,
}
use nana.Runtime.Lease.{acquire_authority, renew_authority}
use nana.Runtime.Dispatch.{
  is_pending, is_notified, find_dispatch, store_dispatch, queue_dispatch, mark_notified,
  mark_delivered, mark_failed,
}
use nana.Runtime.Mailbox.{
  mark_mailbox_notified, mark_mailbox_delivered, create_mailbox_message, store_mailbox,
}
use nana.Runtime.Command.{
  Codec, Command, acquire_lease, queue, notify_dispatch, deliver_dispatch, fail_dispatch, execute,
  finish, mark_dispatch_state_changed,
}

-- The moves of one record: what it was asked to do is fixed, and its status goes along these edges.
pub data Moves (a b : DispatchRecord) : Type 0 where
  kept : b ≡ a → Moves a b
  notifies :
      (now channel : String)
      → a.status ≡ pending
      → b ≡ record a { status = notified; notified_at = some now; reason = some channel }
      → Moves a b
  delivers :
      (now : String)
      → a.status ≡ notified
      → b ≡ record a { status = delivered; delivered_at = some now }
      → Moves a b
  fails :
      (now reason : String)
      → (a.status ≡ pending) ⊎ (a.status ≡ notified)
      → b ≡ record a { status = failed; failed_at = some now; reason = some reason }
      → Moves a b

-- The records of the second list are those of the first, each moved, and then new ones, all pending.
pub data Advances : List DispatchRecord → List DispatchRecord → Type 0 where
  done : Advances [] []
  new :
      {bs : List DispatchRecord} (b : DispatchRecord)
      → b.status ≡ pending
      → Advances [] bs
      → Advances [] (b ∷ bs)
  moved :
      {a b : DispatchRecord} {rs bs : List DispatchRecord}
      → Moves a b
      → Advances rs bs
      → Advances (a ∷ rs) (b ∷ bs)

Advances-refl : (rs : List DispatchRecord) → Advances rs rs
Advances-refl [] = done
Advances-refl (r ∷ rs) = moved (kept refl) (Advances-refl rs)

Advances-queue :
    (rs : List DispatchRecord) (b : DispatchRecord)
    → b.status ≡ pending
    → Advances rs (rs ++ b ∷ [])
Advances-queue [] b h = new b h done
Advances-queue (r ∷ rs) b h = moved (kept refl) (Advances-queue rs b h)

same : {a b : DispatchRecord} → some a ≡ some b → a ≡ b
same h = ground arith

Advances-set :
    (id : String) (rs : List DispatchRecord) (a b : DispatchRecord)
    → find_dispatch id rs ≡ some a
    → Moves a b
    → Advances rs (set_key (λ r. r.request_id) id b rs)
unfolding find_dispatch set_key find_key
Advances-set id [] a b h m = done
Advances-set id (r ∷ rs) a b h m = elim (Bool-cases (r.request_id == id)) [
  | inl hit ↦
      rw (hit, set_key)
        (moved (rw (same (rw (hit, find_dispatch, find_key) at h)) m) (Advances-refl rs))
  | inr miss ↦
      rw (miss, set_key)
        (moved (kept refl) (Advances-set id rs a b (rw (miss, find_dispatch, find_key) at h) m))
]

module _ (id : String) (e : Engine) where
  mark_notified-Advances :
      (now channel : String) → Advances e.dispatch (mark_notified now id channel e).0.dispatch
  unfolding mark_notified store_dispatch
  mark_notified-Advances now channel = elim (Option-cases (find_dispatch id e.dispatch)) [
    | inl h ↦ rw (h, mark_notified) (Advances-refl e.dispatch)
    | inr (r, h) ↦ elim (Bool-cases (is_pending r.status)) [
      | inl p ↦
          rw (h, p, mark_notified)
            (Advances-set id e.dispatch r _ h (notifies now channel (ground arith) refl))
      | inr p ↦ rw (h, p, mark_notified) (Advances-refl e.dispatch)
    ]
  ]

  mark_delivered-Advances :
      (now : String) → Advances e.dispatch (mark_delivered now id e).0.dispatch
  unfolding mark_delivered store_dispatch
  mark_delivered-Advances now = elim (Option-cases (find_dispatch id e.dispatch)) [
    | inl h ↦ rw (h, mark_delivered) (Advances-refl e.dispatch)
    | inr (r, h) ↦ elim (Bool-cases (is_notified r.status)) [
      | inl p ↦
          rw (h, p, mark_delivered)
            (Advances-set id e.dispatch r _ h (delivers now (ground arith) refl))
      | inr p ↦ rw (h, p, mark_delivered) (Advances-refl e.dispatch)
    ]
  ]

  mark_failed-Advances :
      (now reason : String) → Advances e.dispatch (mark_failed now id reason e).0.dispatch
  unfolding mark_failed store_dispatch
  mark_failed-Advances now reason = elim (Option-cases (find_dispatch id e.dispatch)) [
    | inl h ↦ rw (h, mark_failed) (Advances-refl e.dispatch)
    | inr (r, h) ↦ elim (Bool-cases (is_pending r.status || is_notified r.status)) [
      | inl p ↦
          rw (h, p, mark_failed)
            (Advances-set id e.dispatch r _ h (fails now reason (ground arith) refl))
      | inr p ↦ rw (h, p, mark_failed) (Advances-refl e.dispatch)
    ]
  ]

Advances-finish :
    (rs : List DispatchRecord) (mark : Engine → Engine) (event : Event)
    (done : Engine × Option RuntimeError)
    → ((e : Engine) → (mark e).dispatch ≡ e.dispatch)
    → Advances rs done.0.dispatch
    → Advances rs (finish mark event done).0.dispatch
unfolding finish
Advances-finish rs mark event (e, none) h a = rw (h e) a
Advances-finish rs mark event (e, some x) h a = a

dispatch-mark : (e : Engine) → (mark_dispatch_state_changed e).dispatch ≡ e.dispatch
unfolding mark_dispatch_state_changed
dispatch-mark e = refl

abbrev is_dispatch : Command → Bool
is_dispatch (queue _ _ _) = true
is_dispatch (notify_dispatch _ _) = true
is_dispatch (deliver_dispatch _) = true
is_dispatch (fail_dispatch _ _) = true
is_dispatch _ = false

-- A command that is not one of the dispatch log leaves the log as it is.
other-dispatch :
    (codec : Codec) (now : String) (command : Command) (e : Engine)
    → is_dispatch command ≡ false
    → (execute codec now command e).0.dispatch ≡ e.dispatch
unfolding execute finish acquire_authority renew_authority mark_mailbox_notified
    mark_mailbox_delivered create_mailbox_message store_mailbox
other-dispatch codec now (acquire_lease a b c) e h = ground arith
other-dispatch codec now _ e h = ground arith

-- Whatever a command does, the dispatch log keeps its records in place with what they were asked to
-- do, each status goes along pending to notified to delivered, or from one of the first two to
-- failed, and only pending records are added, behind the others.
pub execute-Advances :
    (codec : Codec) (now : String) (command : Command) (e : Engine)
    → Advances e.dispatch (execute codec now command e).0.dispatch
unfolding execute
execute-Advances codec now (queue id target metadata) e =
    Advances-finish e.dispatch mark_dispatch_state_changed _
      (queue_dispatch now id target metadata e, none) dispatch-mark
      (unfold queue_dispatch in Advances-queue e.dispatch _ refl)
execute-Advances codec now (notify_dispatch id channel) e =
    Advances-finish e.dispatch mark_dispatch_state_changed _ (mark_notified now id channel e)
      dispatch-mark (mark_notified-Advances id e now channel)
execute-Advances codec now (deliver_dispatch id) e =
    Advances-finish e.dispatch mark_dispatch_state_changed _ (mark_delivered now id e) dispatch-mark
      (mark_delivered-Advances id e now)
execute-Advances codec now (fail_dispatch id reason) e =
    Advances-finish e.dispatch mark_dispatch_state_changed _ (mark_failed now id reason e)
      dispatch-mark (mark_failed-Advances id e now reason)
execute-Advances codec now command e =
    rw (other-dispatch codec now command e refl) (Advances-refl e.dispatch)
