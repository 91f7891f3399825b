-- ===== src/Runtime/State.antt =====
-- The engine's data (cmd/nana-runtime/main.go, the types above `main`). A `*string` is an
-- `Option String`; a `json.RawMessage` is the text of a JSON value, `none` for nil, and two texts of
-- one value are not told apart.
use nana.Prelude.{String, Bool, false, Option, none, List, []}

pub record Authority : Type 0 where
  pub owner : Option String
  pub lease_id : Option String
  pub leased_until : Option String
  pub stale : Bool
  pub stale_reason : Option String

-- A status is a string in the source: `other` is one that a state file holds and the code never
-- writes.
pub data DispatchStatus : Type 0 where
  pending notified delivered failed : DispatchStatus
  other : String → DispatchStatus

pub record DispatchRecord : Type 0 where
  pub request_id : String
  pub target : String
  pub status : DispatchStatus
  pub created_at : String
  pub notified_at : Option String
  pub delivered_at : Option String
  pub failed_at : Option String
  pub reason : Option String
  pub metadata : Option String

pub record MailboxRecord : Type 0 where
  pub message_id : String
  pub from_worker : String
  pub to_worker : String
  pub body : String
  pub created_at : String
  pub notified_at : Option String
  pub delivered_at : Option String

-- `SeenEventIDs` starts empty and no code reads or writes it.
pub record ReplayState : Type 0 where
  pub cursor : Option String
  pub deferred_leader_notification : Bool

pub record DirtyState : Type 0 where
  pub snapshot : Bool
  pub events : Bool
  pub authority : Bool
  pub backlog : Bool
  pub replay : Bool
  pub readiness : Bool
  pub dispatch : Bool
  pub mailbox : Bool

-- A value under `any`: a string, nil, or another JSON value by its text.
pub data Value : Type 0 where
  null : Value
  text : String → Value
  json : String → Value

abbrev pub Event : Type 0
Event = List (String × Value)

pub record Engine : Type 0 where
  pub authority : Authority
  pub dispatch : List DispatchRecord
  pub mailbox : List MailboxRecord
  pub replay : ReplayState
  pub event_log : List Event
  pub pending_events : List Event
  pub event_log_loaded : Bool
  pub state_dir : String
  pub dirty : DirtyState

abbrev pub no_lease : Authority
no_lease = record {
  owner = none;
  lease_id = none;
  leased_until = none;
  stale = false;
  stale_reason = none;
}

abbrev pub clean : DirtyState
clean = record {
  snapshot = false;
  events = false;
  authority = false;
  backlog = false;
  replay = false;
  readiness = false;
  dispatch = false;
  mailbox = false;
}

-- newRuntimeEngine
unfoldable pub new_runtime_engine : Engine
new_runtime_engine = record {
  authority = no_lease;
  dispatch = [];
  mailbox = [];
  replay = record { cursor = none; deferred_leader_notification = false };
  event_log = [];
  pending_events = [];
  event_log_loaded = false;
  state_dir = "";
  dirty = clean;
}

pub data RuntimeError : Type 0 where
  lease_already_held : String → RuntimeError
  no_lease_held : RuntimeError
  owner_mismatch : String → RuntimeError
  dispatch_not_found : String → RuntimeError
  invalid_transition : String → DispatchStatus → DispatchStatus → RuntimeError
  mailbox_not_found : String → RuntimeError
  mailbox_already_delivered : String → RuntimeError
  invalid_json : RuntimeError
  missing_command : RuntimeError
  missing_field : String → RuntimeError
  unknown_command : String → RuntimeError
