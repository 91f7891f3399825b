-- ===== src/Runtime/Replay.antt =====
-- cmd/nana-runtime/main.go: replayEvent, the loop of loadRuntimeEngineFromEvents, and compact.
use nana.Prelude.{
  ℕ, suc, String, true, false, Bool, Option, none, some, List, [], ◌∷◌, ◌++◌, ◌==◌, if◌then◌else◌,
  ◌||◌, lookup,
}
use nana.Runtime.State.{
  DispatchStatus, delivered, failed, DispatchRecord, Value, text, Event, Engine,
}
use nana.Runtime.Lease.{acquire_authority}
use nana.Runtime.Dispatch.{queue_dispatch, mark_notified, mark_delivered, mark_failed}
use nana.Runtime.Mailbox.{create_mailbox_message, mark_mailbox_notified, mark_mailbox_delivered}
use nana.Runtime.Command.{Codec}

-- `value, _ := event[key].(string)`
unfoldable pub as_text : Option Value → String
as_text (some (text t)) = t
as_text _ = ""

unfoldable pub event_text : String → Event → String
unfolding as_text lookup
event_text key event = as_text (lookup key event)

unfoldable pub event_metadata : Codec → Option Value → Option String
event_metadata codec none = none
event_metadata codec (some v) = codec.encode_any v

unfoldable pub event_cursor : Option Value → Option String
event_cursor (some (text t)) = some t
event_cursor _ = none

-- The switch of replayEvent. An error of a method is dropped, so only the engine is passed on.
unfoldable pub replay_type : Codec → String → Event → String → Engine → Engine
unfolding event_text event_metadata event_cursor lookup
replay_type codec now event type e =
    if type == "AuthorityAcquired" || type == "AuthorityRenewed"
    then (acquire_authority (event_text "owner" event) (event_text "lease_id" event)
        (event_text "leased_until" event) e).0
    else if type == "DispatchQueued"
    then queue_dispatch now (event_text "request_id" event) (event_text "target" event)
        (event_metadata codec (lookup "metadata" event)) e
    else if type == "DispatchNotified"
    then (mark_notified now (event_text "request_id" event) (event_text "channel" event) e).0
    else if type == "DispatchDelivered"
    then (mark_delivered now (event_text "request_id" event) e).0
    else if type == "DispatchFailed"
    then (mark_failed now (event_text "request_id" event) (event_text "reason" event) e).0
    else if type == "ReplayRequested"
    then record e { replay = record replay { cursor = event_cursor (lookup "cursor" event) } }
    else if type == "MailboxMessageCreated"
    then create_mailbox_message now (event_text "message_id" event) (event_text "from_worker" event)
        (event_text "to_worker" event) (event_text "body" event) e
    else if type == "MailboxNotified"
    then (mark_mailbox_notified now (event_text "message_id" event) e).0
    else if type == "MailboxDelivered"
    then (mark_mailbox_delivered now (event_text "message_id" event) e).0
    else e
  where
    open e use {replay}

unfoldable pub replay_event : Codec → String → Event → Engine → Engine
unfolding replay_type
replay_event codec now event e = replay_type codec now event (event_text "event" event) e

-- The loop of loadRuntimeEngineFromEvents. `keep` is the option LoadEventLog, and `clock n` the time
-- at the n-th event of the list.
unfoldable pub replay_events : Codec → (ℕ → String) → Bool → List Event → Engine → Engine
replay_events codec clock keep [] e = e
replay_events codec clock keep (event ∷ events) e =
    let replayed = replay_event codec (clock 0) event e in
    replay_events codec (λ n. clock (suc n)) keep events
      (if keep then record replayed { event_log = replayed.event_log ++ event ∷ [] } else replayed)

abbrev pub is_terminal : DispatchStatus → Bool
is_terminal delivered = true
is_terminal failed = true
is_terminal _ = false

-- Whether the map `terminal` of compact has an entry for the text.
unfoldable pub has_terminal : String → List DispatchRecord → Bool
has_terminal request_id [] = false
has_terminal request_id (r ∷ rs) =
    if is_terminal r.status
    then r.request_id == request_id || has_terminal request_id rs
    else has_terminal request_id rs

unfoldable pub is_compacted : List DispatchRecord → Event → Bool
unfolding event_text has_terminal
is_compacted records event =
    let request_id = event_text "request_id" event in
    if request_id == "" then false else has_terminal request_id records

unfoldable pub compact_events : List DispatchRecord → List Event → List Event
unfolding is_compacted
compact_events records [] = []
compact_events records (event ∷ events) =
    let rest = compact_events records events in
    if is_compacted records event then rest else event ∷ rest

unfoldable pub compact : Engine → Engine
unfolding compact_events
compact e =
    if e.event_log_loaded
    then record e {
      event_log = compact_events e.dispatch e.event_log;
      dirty = record dirty { events = true };
    }
    else e
  where
    open e use {dirty}
