-- ===== src/Runtime/Files.antt =====
-- cmd/nana-runtime/main.go: the state directory, loading, persisting and the command `exec`.
-- The directory is a value with one field for each file; the writes themselves succeed.
use nana.Prelude.{
  ℕ, String, Bool, true, false, not, Option, none, some, List, [], ◌∷◌, ◌++◌, map, ◌==◌,
  if◌then◌else◌, ◌&&◌, ◌||◌, trim_space,
}
use nana.Runtime.State.{
  Authority, DispatchRecord, MailboxRecord, Event, Engine, RuntimeError, new_runtime_engine,
}
use nana.Runtime.Command.{Codec, Outcome, ok, err, process_raw_command}
use nana.Runtime.Replay.{replay_events, compact}
use nana.Runtime.Snapshot.{
  RuntimeSnapshot, BacklogSnapshot, ReplaySnapshot, ReadinessSnapshot, snapshot,
}

-- What is at a path: nothing, a file of no bytes, one that does not decode (with whether its last
-- significant byte is `]`), or one that holds a value.
pub data File (A : Type 0) : Type 0 where
  missing empty : File A
  corrupt : Bool → File A
  stored : A → File A

abbrev pub exists : {A : Type 0} → File A → Bool
exists missing = false
exists _ = true

pub record StateDir : Type 0 where
  pub snapshot_json : File RuntimeSnapshot
  pub events_json : File (List Event)
  pub authority_json : File Authority
  pub backlog_json : File BacklogSnapshot
  pub readiness_json : File ReadinessSnapshot
  pub replay_json : File ReplaySnapshot
  pub dispatch_json : File (List DispatchRecord)
  pub mailbox_json : File (List MailboxRecord)

-- readRuntimeJSON and readRuntimeEventLog; `absent` is os.ErrNotExist.
pub data Read (A : Type 0) : Type 0 where
  found : A → Read A
  absent broken : Read A

abbrev pub read : {A : Type 0} → File A → Read A
read missing = absent
read empty = broken
read (corrupt _) = broken
read (stored a) = found a

infixl 5 ◌>>=◌
abbrev pub ◌>>=◌ : {A B : Type 0} → Read A → (A → Read B) → Read B
found a >>= f = f a
absent >>= f = absent
broken >>= f = broken

-- A nil json.RawMessage is written as `null`, and read back as that text.
unfoldable pub written_record : DispatchRecord → DispatchRecord
written_record r = record r { metadata = elim r.metadata [ none ↦ some "null" | some m ↦ some m ] }

unfoldable pub load_runtime_engine_from_snapshot : StateDir → String → Read Engine
load_runtime_engine_from_snapshot disk state_dir = do
  saved ← read disk.snapshot_json
  records ← read disk.dispatch_json
  messages ← read disk.mailbox_json
  found (record new_runtime_engine {
    state_dir = state_dir;
    authority = saved.authority;
    dispatch = records;
    mailbox = messages;
    replay = record {
      cursor = saved.replay.cursor;
      deferred_leader_notification = saved.replay.deferred_leader_notification;
    };
  })

unfoldable pub load_runtime_engine_from_events :
    Codec → (ℕ → String) → StateDir → String → Bool → Read Engine
unfolding replay_events new_runtime_engine
load_runtime_engine_from_events codec clock disk state_dir load_event_log = do
  events ← read disk.events_json
  found (
      replay_events codec clock load_event_log events
        (record new_runtime_engine { state_dir = state_dir; event_log_loaded = load_event_log }))

-- The part of loadRuntimeEngineWithOptions behind a snapshot that was read.
unfoldable pub with_event_log : StateDir → Bool → Engine → Read Engine
with_event_log disk load_event_log e =
    if load_event_log
    then (do
      events ← read disk.events_json
      found (record e { event_log = events; event_log_loaded = true }))
    else found e

unfoldable pub load_runtime_engine_with_options :
    Codec → (ℕ → String) → StateDir → String → Bool → Read Engine
unfolding load_runtime_engine_from_snapshot load_runtime_engine_from_events with_event_log
load_runtime_engine_with_options codec clock disk state_dir load_event_log =
    elim (load_runtime_engine_from_snapshot disk state_dir) [
      | found e ↦ with_event_log disk load_event_log e
      | absent ↦ load_runtime_engine_from_events codec clock disk state_dir load_event_log
      | broken ↦ broken
    ]

-- appendPrettyJSONArrayValue; `none` is an error.
unfoldable pub append_json_array_value : Event → File (List Event) → Option (File (List Event))
append_json_array_value event missing = some (stored (event ∷ []))
append_json_array_value event empty = some (stored (event ∷ []))
append_json_array_value event (corrupt true) = some (corrupt true)
append_json_array_value event (corrupt false) = none
append_json_array_value event (stored events) = some (stored (events ++ event ∷ []))

unfoldable pub append_all : List Event → File (List Event) → Option (File (List Event))
unfolding append_json_array_value
append_all [] file = some file
append_all (event ∷ events) file = elim (append_json_array_value event file) [
  | none ↦ none
  | some written ↦ append_all events written
]

unfoldable pub persist_event_log : Engine → File (List Event) → Option (File (List Event))
unfolding append_all
persist_event_log e file =
    if e.event_log_loaded then some (stored e.event_log) else elim e.pending_events [
      | [] ↦ some (stored [])
      | event ∷ events ↦ append_all (event ∷ events) file
    ]

-- The closure writeIfDirty of writeCompatibilityView, and the like test of persist. The flag is
-- false behind it on either branch.
unfoldable pub write_if_dirty : {A : Type 0} → Bool → A → File A → File A
write_if_dirty dirty value file = if not dirty && exists file then file else stored value

-- The directory, the engine, and whether there was no error.
abbrev pub Persisted : Type 0
Persisted = StateDir × Engine × Bool

unfoldable pub persist_events : StateDir → Engine → Persisted
unfolding persist_event_log
persist_events disk e =
    if e.dirty.events || not (exists disk.events_json)
    then elim (persist_event_log e disk.events_json) [
      | none ↦ (disk, e, false)
      | some file ↦ (
        record disk { events_json = file },
        record e { dirty = record dirty { events = false }; pending_events = [] },
        true,
      )
    ]
    else (disk, e, true)
  where
    open e use {dirty}

unfoldable pub persist : StateDir → Engine → Persisted
unfolding persist_events write_if_dirty
persist disk e =
    if trim_space e.state_dir == ""
    then (disk, e, false)
    else persist_events
        (record disk {
          snapshot_json = write_if_dirty e.dirty.snapshot (snapshot e) disk.snapshot_json;
        })
        (record e { dirty = record dirty { snapshot = false } })
  where
    open e use {dirty}

unfoldable pub write_compatibility_view : StateDir → Engine → Persisted
unfolding write_if_dirty
write_compatibility_view disk e =
    let s = snapshot e in
    if trim_space e.state_dir == "" then (disk, e, false) else (
      record disk {
        authority_json = write_if_dirty dirty.authority s.authority disk.authority_json;
        backlog_json = write_if_dirty dirty.backlog s.backlog disk.backlog_json;
        readiness_json = write_if_dirty dirty.readiness s.readiness disk.readiness_json;
        replay_json = write_if_dirty dirty.replay s.replay disk.replay_json;
        dispatch_json =
            write_if_dirty dirty.dispatch (map written_record e.dispatch) disk.dispatch_json;
        mailbox_json = write_if_dirty dirty.mailbox e.mailbox disk.mailbox_json;
      },
      record e {
        dirty = record dirty {
          authority = false;
          backlog = false;
          readiness = false;
          replay = false;
          dispatch = false;
          mailbox = false;
        };
      },
      true,
    )
  where
    open e use {dirty}

-- What `exec` prints: the event, an error of the command, or an error of a file.
pub data Reply : Type 0 where
  event_reply : Event → Reply
  command_error : RuntimeError → Reply
  file_error : Reply

abbrev pub view_reply : Persisted → Event → StateDir × Reply
view_reply (disk, e, false) event = (disk, file_error)
view_reply (disk, e, true) event = (disk, event_reply event)

abbrev pub persist_reply : Persisted → Event → StateDir × Reply
persist_reply (disk, e, false) event = (disk, file_error)
persist_reply (disk, e, true) event = view_reply (write_compatibility_view disk e) event

-- The end of the case "exec": persist, then writeCompatibilityView, unless the first failed.
unfoldable pub save : StateDir → Engine → Event → StateDir × Reply
save disk e event = persist_reply (persist disk e) event

abbrev pub or_new : Read Engine → Engine
or_new (found e) = e
or_new _ = new_runtime_engine

-- The engine that `exec` starts from: any error of loading gives a new one.
unfoldable pub exec_engine : Codec → (ℕ → String) → String → Bool → StateDir → Engine
unfolding load_runtime_engine_with_options
exec_engine codec clock state_dir compacting disk =
    if state_dir == "" then new_runtime_engine else (record loaded { state_dir = state_dir })
  where
    loaded : Engine
    loaded = or_new (load_runtime_engine_with_options codec clock disk state_dir compacting)

-- The case "exec" behind processRawCommand. `compacting` is the flag --compact.
unfoldable pub exec_reply : String → Bool → StateDir → Engine × Outcome Event → StateDir × Reply
exec_reply state_dir compacting disk (e, err x) = (disk, command_error x)
exec_reply state_dir compacting disk (e, ok event) =
    if state_dir == ""
    then (disk, event_reply event)
    else save disk (if compacting then compact e else e) event

-- The case "exec" of runCLI: `clock` gives the times of a replay while loading, and `now` that of
-- the command.
unfoldable pub exec :
    Codec → (ℕ → String) → String → String → Bool → String → StateDir → StateDir × Reply
exec codec clock now state_dir compacting raw disk =
    exec_reply state_dir compacting disk
      (process_raw_command codec now raw (exec_engine codec clock state_dir compacting disk))

abbrev pub no_files : StateDir
no_files = record {
  snapshot_json = missing;
  events_json = missing;
  authority_json = missing;
  backlog_json = missing;
  readiness_json = missing;
  replay_json = missing;
  dispatch_json = missing;
  mailbox_json = missing;
}

-- The case "init" of runCLI, on a directory that may hold files already.
unfoldable pub init : String → StateDir → StateDir × Bool
unfolding persist write_compatibility_view
init state_dir disk =
    let persisted = persist disk (record new_runtime_engine { state_dir = state_dir }) in
    elim persisted.2 [
      | false ↦ (persisted.0, false)
      | true ↦ let viewed = write_compatibility_view persisted.0 persisted.1 in (viewed.0, viewed.2)
    ]
