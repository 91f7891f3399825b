-- ===== src/Runtime/Rebuild/Log.antt =====
-- The events of a run against its engine (processRawCommand, appendEvent and replayEvent in
-- cmd/nana-runtime/main.go).
use mathlib.Core.Path.{subst}
use mathlib.Core.List.{append-nil, append_assoc}
use nana.Runtime.Atomic.{execute_error_unchanged}
use nana.Prelude.{
  ℕ, suc, String, ◌≡◌, refl, sym, Option, none, some, List, [], ◌∷◌, ◌++◌, arith, inl, inr,
  Option-cases, false,
}
use nana.Runtime.State.{Event, Engine, RuntimeError, new_runtime_engine, text}
use nana.Runtime.Dispatch.{
  kept_metadata, mark_notified, mark_delivered, mark_failed, queue_dispatch, store_dispatch,
}
use nana.Runtime.Lease.{acquire_authority, renew_authority}
use nana.Runtime.Mailbox.{
  mark_mailbox_notified, mark_mailbox_delivered, create_mailbox_message, store_mailbox,
}
use nana.Runtime.Command.{
  Codec, Command, acquire_lease, renew_lease, queue, notify_dispatch, deliver_dispatch,
  fail_dispatch, request_replay, capture_snapshot, create_message, notify_message, deliver_message,
  Outcome, ok, err, execute, finish, mark_authority_state_changed, mark_dispatch_state_changed,
  mark_replay_state_changed, mark_mailbox_state_changed, Outcome-cases, queued_event, cursor_value,
}
use nana.Runtime.Replay.{replay_event, replay_events}
use nana.Runtime.Rebuild.Same.{
  SameEngine, acquire-Same, renew-Same, queue-Same, mark_notified-Same, mark_delivered-Same,
  mark_failed-Same, create_mailbox_message-Same, mark_mailbox_notified-Same,
  mark_mailbox_delivered-Same, kept_idem, restored,
}
use nana.Runtime.Holding.{run}

-- A change of flags alone.
record IsQuiet (mark : Engine → Engine) : Type 0 where
  authority : (e : Engine) → (mark e).authority ≡ e.authority
  dispatch : (e : Engine) → (mark e).dispatch ≡ e.dispatch
  mailbox : (e : Engine) → (mark e).mailbox ≡ e.mailbox
  replay : (e : Engine) → (mark e).replay ≡ e.replay

module _ (codec : Codec) (later : String) (y : Engine) where
  finish-Same :
      (mark : Engine → Engine) (event : Event) (done : Engine × Option RuntimeError) (ev : Event)
      → IsQuiet mark
      → (done.1 ≡ none → SameEngine codec done.0 (replay_event codec later event y))
      → (finish mark event done).1 ≡ ok ev
      → SameEngine codec (finish mark event done).0 (replay_event codec later ev y)
  unfolding finish
  finish-Same mark event (e, some x) ev quiet same h = cc
  finish-Same mark event (e, none) ev quiet same h =
      let s : SameEngine codec e (replay_event codec later event y) = same refl in
      let logged : event ≡ ev = ground arith in
      rw (← logged) (record {
        authority = rw (quiet.authority e) s.authority;
        dispatch = rw (quiet.dispatch e) s.dispatch;
        mailbox = rw (quiet.mailbox e) s.mailbox;
        replay = rw (quiet.replay e) s.replay;
      })

authority-IsQuiet : IsQuiet mark_authority_state_changed
unfolding mark_authority_state_changed
authority-IsQuiet = record {
  authority = λ e. refl;
  dispatch = λ e. refl;
  mailbox = λ e. refl;
  replay = λ e. refl;
}

dispatch-IsQuiet : IsQuiet mark_dispatch_state_changed
unfolding mark_dispatch_state_changed
dispatch-IsQuiet = record {
  authority = λ e. refl;
  dispatch = λ e. refl;
  mailbox = λ e. refl;
  replay = λ e. refl;
}

replay-IsQuiet : IsQuiet mark_replay_state_changed
unfolding mark_replay_state_changed
replay-IsQuiet = record {
  authority = λ e. refl;
  dispatch = λ e. refl;
  mailbox = λ e. refl;
  replay = λ e. refl;
}

mailbox-IsQuiet : IsQuiet mark_mailbox_state_changed
unfolding mark_mailbox_state_changed
mailbox-IsQuiet = record {
  authority = λ e. refl;
  dispatch = λ e. refl;
  mailbox = λ e. refl;
  replay = λ e. refl;
}

id-IsQuiet : IsQuiet (λ e. e)
id-IsQuiet = record {
  authority = λ e. refl;
  dispatch = λ e. refl;
  mailbox = λ e. refl;
  replay = λ e. refl;
}

module _ (codec : Codec) (now later : String) (x y : Engine) (same : SameEngine codec x y) where
  replay-queued :
      (id target : String) (metadata : Option String)
      → replay_event codec later (queued_event codec id target metadata) y
        ≡ queue_dispatch later id target (restored codec (kept_metadata metadata)) y
  unfolding replay_event queued_event queue_dispatch
  replay-queued id target metadata = elim (Option-cases (kept_metadata metadata)) [
    | inl dropped ↦ rw (dropped, queued_event) refl
    | inr (m, kept) ↦
        rw (kept, queued_event) (rw (kept_idem (codec.encode_any (codec.decode_any m))) refl)
  ]

  replay_cursor-Same :
      (cursor : Option String)
      → SameEngine codec
          (record x {
            replay = record {
              cursor = cursor;
              deferred_leader_notification = x.replay.deferred_leader_notification;
            };
          })
          (replay_event codec later
            (("event", text "ReplayRequested") ∷ ("cursor", cursor_value cursor) ∷ [])
            y)
  unfolding replay_event cursor_value
  replay_cursor-Same none = record {
    authority = same.authority;
    dispatch = same.dispatch;
    mailbox = same.mailbox;
    replay = rw same.replay;
  }
  replay_cursor-Same (some c) = record {
    authority = same.authority;
    dispatch = same.dispatch;
    mailbox = same.mailbox;
    replay = rw same.replay;
  }

  execute-Same :
      (command : Command) (ev : Event)
      → (execute codec now command x).1 ≡ ok ev
      → SameEngine codec (execute codec now command x).0 (replay_event codec later ev y)
  unfolding execute replay_event
  execute-Same (acquire_lease a b c) ev h =
      finish-Same codec later y _ _ (acquire_authority a b c x) ev authority-IsQuiet
        (acquire-Same codec x y same a b c) h
  execute-Same (renew_lease a b c) ev h =
      finish-Same codec later y _ _ (renew_authority a b c x) ev authority-IsQuiet
        (renew-Same codec x y same a b c) h
  execute-Same (queue id target metadata) ev h =
      finish-Same codec later y _ (queued_event codec id target metadata)
        (queue_dispatch now id target metadata x, none) ev dispatch-IsQuiet
        (λ _.
          rw (replay-queued id target metadata)
            (queue-Same codec x y same now later id target metadata))
        h
  execute-Same (notify_dispatch id channel) ev h =
      finish-Same codec later y _ _ (mark_notified now id channel x) ev dispatch-IsQuiet
        (λ _. mark_notified-Same codec x y same now later id channel) h
  execute-Same (deliver_dispatch id) ev h =
      finish-Same codec later y _ _ (mark_delivered now id x) ev dispatch-IsQuiet
        (λ _. mark_delivered-Same codec x y same now later id) h
  execute-Same (fail_dispatch id reason) ev h =
      finish-Same codec later y _ _ (mark_failed now id reason x) ev dispatch-IsQuiet
        (λ _. mark_failed-Same codec x y same now later id reason) h
  execute-Same (request_replay cursor) ev h =
      finish-Same codec later y _
        (("event", text "ReplayRequested") ∷ ("cursor", cursor_value cursor) ∷ [])
        (
          record x {
            replay = record {
              cursor = cursor;
              deferred_leader_notification = x.replay.deferred_leader_notification;
            };
          },
          none,
        )
        ev replay-IsQuiet (λ _. replay_cursor-Same cursor) h
  execute-Same capture_snapshot ev h =
      finish-Same codec later y _ _ (x, none) ev id-IsQuiet (λ _. same) h
  execute-Same (create_message id from to body) ev h =
      finish-Same codec later y _ _ (create_mailbox_message now id from to body x, none) ev
        mailbox-IsQuiet (λ _. create_mailbox_message-Same codec x y same now later id from to body)
        h
  execute-Same (notify_message id) ev h =
      finish-Same codec later y _ _ (mark_mailbox_notified now id x) ev mailbox-IsQuiet
        (λ _. mark_mailbox_notified-Same codec x y same now later id) h
  execute-Same (deliver_message id) ev h =
      finish-Same codec later y _ _ (mark_mailbox_delivered now id x) ev mailbox-IsQuiet
        (λ _. mark_mailbox_delivered-Same codec x y same now later id) h

-- The events that a run of commands logs, oldest first.
logged_by : Outcome Event → List Event → List Event
logged_by (ok event) events = event ∷ events
logged_by (err x) events = events

logged : Codec → List (String × Command) → Engine → List Event
unfolding logged_by
logged codec [] e = []
logged codec ((now, command) ∷ rest) e =
    logged_by (execute codec now command e).1 (logged codec rest (execute codec now command e).0)

run-Same :
    (codec : Codec) (commands : List (String × Command)) (clock : ℕ → String) (x y : Engine)
    → SameEngine codec x y
    → SameEngine codec
        (run codec commands x)
        (replay_events codec clock false (logged codec commands x) y)
unfolding run logged replay_events
run-Same codec [] clock x y same = same
run-Same codec ((now, command) ∷ rest) clock x y same =
    elim (Outcome-cases (execute codec now command x).1) [
      | inl (ev, h) ↦
          rw (h, logged_by)
            (run-Same codec rest (λ n. clock (suc n)) _ _
              (execute-Same codec now (clock 0) x y same command ev h))
      | inr (e, h) ↦
          rw (h, logged_by)
            (rw (execute_error_unchanged codec now command x e h)
              (run-Same codec rest clock x y same))
    ]

pub pending-execute :
    (codec : Codec) (now : String) (command : Command) (e : Engine) (ev : Event)
    → (execute codec now command e).1 ≡ ok ev
    → (execute codec now command e).0.pending_events ≡ e.pending_events ++ ev ∷ []
unfolding execute finish acquire_authority renew_authority mark_notified mark_delivered mark_failed
    mark_mailbox_notified mark_mailbox_delivered queue_dispatch create_mailbox_message
    store_dispatch store_mailbox
pending-execute codec now (acquire_lease a b c) e ev h = ground arith
pending-execute codec now _ e ev h = ground arith

pending-run :
    (codec : Codec) (commands : List (String × Command)) (e : Engine)
    → (run codec commands e).pending_events ≡ e.pending_events ++ logged codec commands e
unfolding run logged
pending-run codec [] e = sym (append-nil e.pending_events)
pending-run codec ((now, command) ∷ rest) e = elim (Outcome-cases (execute codec now command e).1) [
  | inl (ev, h) ↦
      rw (pending-run codec rest, h, logged_by)
        (rw (pending-execute codec now command e ev h) (append_assoc e.pending_events (ev ∷ []) _))
  | inr (x, h) ↦
      rw (pending-run codec rest, h, logged_by)
        (rw (execute_error_unchanged codec now command e x h) refl)
]

-- Whatever commands a new engine has run, replaying its events from a new engine, at any times,
-- gives the same lease, replay cursor, dispatch records and messages. Of the records the times are
-- not compared but for which are set, and metadata come back as the value that they decode to is
-- encoded.
pub run-replay_events :
    (codec : Codec) (commands : List (String × Command)) (clock : ℕ → String)
    → SameEngine codec (run codec commands new_runtime_engine) (
        replay_events codec clock false
          (run codec commands new_runtime_engine).pending_events
          new_runtime_engine)
unfolding new_runtime_engine
run-replay_events codec commands clock =
    subst
      (λ events.
        SameEngine codec (run codec commands new_runtime_engine)
          (replay_events codec clock false events new_runtime_engine))
      (sym (pending-run codec commands new_runtime_engine))
      (run-Same codec commands clock new_runtime_engine new_runtime_engine
        (record { authority = refl; dispatch = tt; mailbox = tt; replay = refl }))
