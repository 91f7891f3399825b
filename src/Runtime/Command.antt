-- ===== src/Runtime/Command.antt =====
-- cmd/nana-runtime/main.go: processRawCommand, in two steps that the source has one after the other
-- in each case of its switch: the decoding of the fields, which changes nothing, and the execution.
use nana.Prelude.{
  String, true, Option, none, some, List, [], ◌∷◌, ◌++◌, ◌==◌, if◌then◌else◌, ◌||◌, lookup, ◌≡◌,
  ◌⊎◌, inl, inr, refl,
}
use nana.Runtime.State.{
  Value, null, text, Event, Engine, RuntimeError, invalid_json, missing_command, missing_field,
  unknown_command,
}
use nana.Runtime.Lease.{acquire_authority, renew_authority}
use nana.Runtime.Dispatch.{
  kept_metadata, queue_dispatch, mark_notified, mark_delivered, mark_failed,
}
use nana.Runtime.Mailbox.{create_mailbox_message, mark_mailbox_notified, mark_mailbox_delivered}

-- encoding/json, as far as the engine calls it. `decode_text` decodes into a string variable that
-- holds ""; `decode_any` gives `null` where decoding fails, and `encode_any` gives nil.
pub record Codec : Type 0 where
  pub decode_object : String → Option (List (String × String))
  pub decode_text : String → Option String
  pub decode_any : String → Value
  pub encode_any : Value → Option String

pub data Command : Type 0 where
  acquire_lease renew_lease : String → String → String → Command
  queue : String → String → Option String → Command
  notify_dispatch fail_dispatch : String → String → Command
  deliver_dispatch : String → Command
  request_replay : Option String → Command
  capture_snapshot : Command
  create_message : String → String → String → String → Command
  notify_message deliver_message : String → Command

pub data Outcome {ℓ} (A : Type ℓ) : Type ℓ where
  ok : A → Outcome A
  err : RuntimeError → Outcome A

pub Outcome-cases {ℓ} :
    {A : Type ℓ} (o : Outcome A) → ((a : A) × (o ≡ ok a)) ⊎ ((x : RuntimeError) × (o ≡ err x))
Outcome-cases (ok a) = inl (a, refl)
Outcome-cases (err x) = inr (x, refl)

infixl 5 ◌>>=◌
abbrev pub ◌>>=◌ {ℓ κ} : {A : Type ℓ} {B : Type κ} → Outcome A → (A → Outcome B) → Outcome B
ok a >>= f = f a
err x >>= f = err x

module _ (codec : Codec) (payload : List (String × String)) where
  -- The body of the loop of `decodeFields`, for one field.
  unfoldable pub decode_field : String → Outcome String
  unfolding lookup
  decode_field key = elim (lookup key payload) [
    | none ↦ err (missing_field key)
    | some raw ↦ elim (codec.decode_text raw) [ none ↦ err invalid_json | some t ↦ ok t ]
  ]

  unfoldable pub decode_cursor : Option String → Outcome Command
  decode_cursor none = ok (request_replay none)
  decode_cursor (some raw) =
      if raw == "" || raw == "null"
      then ok (request_replay none)
      else elim (codec.decode_text raw) [
        | none ↦ err invalid_json
        | some cursor ↦ ok (request_replay (some cursor))
      ]

  -- The switch on the command's name. The fields are read in the order of the source text; a Go map
  -- is ranged over in no fixed order, so of several bad fields any may be the one reported.
  unfoldable pub decode_command : String → Outcome Command
  unfolding decode_field decode_cursor
  decode_command name =
      if name == "AcquireAuthority"
      then (do
        owner ← decode_field "owner"
        lease_id ← decode_field "lease_id"
        leased_until ← decode_field "leased_until"
        ok (acquire_lease owner lease_id leased_until))
      else if name == "RenewAuthority"
      then (do
        owner ← decode_field "owner"
        lease_id ← decode_field "lease_id"
        leased_until ← decode_field "leased_until"
        ok (renew_lease owner lease_id leased_until))
      else if name == "QueueDispatch"
      then (do
        request_id ← decode_field "request_id"
        target ← decode_field "target"
        ok (queue request_id target (lookup "metadata" payload)))
      else if name == "MarkNotified"
      then (do
        request_id ← decode_field "request_id"
        channel ← decode_field "channel"
        ok (notify_dispatch request_id channel))
      else if name == "MarkDelivered"
      then (do request_id ← decode_field "request_id"; ok (deliver_dispatch request_id))
      else if name == "MarkFailed"
      then (do
        request_id ← decode_field "request_id"
        reason ← decode_field "reason"
        ok (fail_dispatch request_id reason))
      else if name == "RequestReplay"
      then decode_cursor (lookup "cursor" payload)
      else if name == "CaptureSnapshot"
      then ok capture_snapshot
      else if name == "CreateMailboxMessage"
      then (do
        message_id ← decode_field "message_id"
        from_worker ← decode_field "from_worker"
        to_worker ← decode_field "to_worker"
        body ← decode_field "body"
        ok (create_message message_id from_worker to_worker body))
      else if name == "MarkMailboxNotified"
      then (do message_id ← decode_field "message_id"; ok (notify_message message_id))
      else if name == "MarkMailboxDelivered"
      then (do message_id ← decode_field "message_id"; ok (deliver_message message_id))
      else err (unknown_command name)

unfoldable pub decode_raw : Codec → String → Outcome Command
unfolding lookup decode_command
decode_raw codec raw = elim (codec.decode_object raw) [
  | none ↦ err invalid_json
  | some payload ↦ elim (lookup "command" payload) [
    | none ↦ err missing_command
    | some name_raw ↦ elim (codec.decode_text name_raw) [
      | none ↦ err missing_command
      | some name ↦ decode_command codec payload name
    ]
  ]
]

-- appendEvent
unfoldable pub append_event : Event → Engine → Engine
append_event event e = record e {
  event_log = if e.event_log_loaded then e.event_log ++ event ∷ [] else e.event_log;
  pending_events = e.pending_events ++ event ∷ [];
  dirty = record dirty { events = true };
}
  where
    open e use {dirty}

-- markAuthorityStateChanged, markDispatchStateChanged, markReplayStateChanged and
-- markMailboxStateChanged
unfoldable pub mark_authority_state_changed : Engine → Engine
mark_authority_state_changed e = record e {
  dirty = record dirty { snapshot = true; authority = true; readiness = true };
}
  where
    open e use {dirty}

unfoldable pub mark_dispatch_state_changed : Engine → Engine
mark_dispatch_state_changed e = record e {
  dirty = record dirty { snapshot = true; backlog = true; dispatch = true };
}
  where
    open e use {dirty}

unfoldable pub mark_replay_state_changed : Engine → Engine
mark_replay_state_changed e = record e { dirty = record dirty { snapshot = true; replay = true } }
  where
    open e use {dirty}

unfoldable pub mark_mailbox_state_changed : Engine → Engine
mark_mailbox_state_changed e = record e { dirty = record dirty { mailbox = true } }
  where
    open e use {dirty}

-- The event of the queueing carries the metadata only where the record keeps it.
unfoldable pub queued_event : Codec → String → String → Option String → Event
unfolding kept_metadata
queued_event codec request_id target metadata =
    let base : Event =
      ("event", text "DispatchQueued")
      ∷ ("request_id", text request_id)
      ∷ ("target", text target)
      ∷ [] in
    elim (kept_metadata metadata) [
      | none ↦ base
      | some m ↦ base ++ ("metadata", codec.decode_any m) ∷ []
    ]

unfoldable pub cursor_value : Option String → Value
cursor_value none = null
cursor_value (some c) = text c

-- What each case does once its method has returned: no more on an error; else the part that changed
-- is marked and the event appended.
unfoldable pub finish :
    (Engine → Engine) → Event → Engine × Option RuntimeError → Engine × Outcome Event
unfolding append_event mark_authority_state_changed mark_dispatch_state_changed
    mark_replay_state_changed mark_mailbox_state_changed
finish mark event (e, some x) = (e, err x)
finish mark event (e, none) = (append_event event (mark e), ok event)

unfoldable pub execute : Codec → String → Command → Engine → Engine × Outcome Event
unfolding queued_event cursor_value
execute codec now (acquire_lease owner lease_id leased_until) e =
    finish mark_authority_state_changed
      (("event", text "AuthorityAcquired")
        ∷ ("owner", text owner)
        ∷ ("lease_id", text lease_id)
        ∷ ("leased_until", text leased_until)
        ∷ [])
      (acquire_authority owner lease_id leased_until e)
execute codec now (renew_lease owner lease_id leased_until) e =
    finish mark_authority_state_changed
      (("event", text "AuthorityRenewed")
        ∷ ("owner", text owner)
        ∷ ("lease_id", text lease_id)
        ∷ ("leased_until", text leased_until)
        ∷ [])
      (renew_authority owner lease_id leased_until e)
execute codec now (queue request_id target metadata) e =
    finish mark_dispatch_state_changed (queued_event codec request_id target metadata)
      (queue_dispatch now request_id target metadata e, none)
execute codec now (notify_dispatch request_id channel) e =
    finish mark_dispatch_state_changed
      (("event", text "DispatchNotified")
        ∷ ("request_id", text request_id)
        ∷ ("channel", text channel)
        ∷ [])
      (mark_notified now request_id channel e)
execute codec now (deliver_dispatch request_id) e =
    finish mark_dispatch_state_changed
      (("event", text "DispatchDelivered") ∷ ("request_id", text request_id) ∷ [])
      (mark_delivered now request_id e)
execute codec now (fail_dispatch request_id reason) e =
    finish mark_dispatch_state_changed
      (("event", text "DispatchFailed")
        ∷ ("request_id", text request_id)
        ∷ ("reason", text reason)
        ∷ [])
      (mark_failed now request_id reason e)
execute codec now (request_replay cursor) e =
    finish mark_replay_state_changed
      (("event", text "ReplayRequested") ∷ ("cursor", cursor_value cursor) ∷ [])
      (record e { replay = record replay { cursor = cursor } }, none)
  where
    open e use {replay}
execute codec now capture_snapshot e =
    finish (λ e. e) (("event", text "SnapshotCaptured") ∷ []) (e, none)
execute codec now (create_message message_id from_worker to_worker body) e =
    finish mark_mailbox_state_changed
      (("event", text "MailboxMessageCreated")
        ∷ ("message_id", text message_id)
        ∷ ("from_worker", text from_worker)
        ∷ ("to_worker", text to_worker)
        ∷ ("body", text body)
        ∷ [])
      (create_mailbox_message now message_id from_worker to_worker body e, none)
execute codec now (notify_message message_id) e =
    finish mark_mailbox_state_changed
      (("event", text "MailboxNotified") ∷ ("message_id", text message_id) ∷ [])
      (mark_mailbox_notified now message_id e)
execute codec now (deliver_message message_id) e =
    finish mark_mailbox_state_changed
      (("event", text "MailboxDelivered") ∷ ("message_id", text message_id) ∷ [])
      (mark_mailbox_delivered now message_id e)

-- processRawCommand
unfoldable pub process_raw_command : Codec → String → String → Engine → Engine × Outcome Event
process_raw_command codec now raw e = elim (decode_raw codec raw) [
  | err x ↦ (e, err x)
  | ok command ↦ execute codec now command e
]
