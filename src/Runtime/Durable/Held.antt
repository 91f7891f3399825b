-- ===== src/Runtime/Durable/Held.antt =====
-- What the files of a state directory hold, and what is read back from them
-- (loadRuntimeEngineWithOptions in cmd/nana-runtime/main.go).
use nana.Prelude.{
  ℕ, String, Bool, ◌≡◌, refl, List, [], map, false, Bool-cases, inl, inr, ◌==◌, if◌then◌else◌,
}
use nana.Runtime.State.{Event, Engine, new_runtime_engine, clean}
use nana.Runtime.Command.{Codec}
use nana.Runtime.Snapshot.{snapshot, dispatch_backlog, derive_readiness}
use nana.Runtime.Files.{StateDir, stored, written_record, exec_engine}

-- The directory holds the engine whole, and the log.
pub record Holds (disk : StateDir) (e : Engine) (log : List Event) : Type 0 where
  pub snapshot_json : disk.snapshot_json ≡ stored (snapshot e)
  pub events_json : disk.events_json ≡ stored log
  pub authority_json : disk.authority_json ≡ stored e.authority
  pub backlog_json : disk.backlog_json ≡ stored (dispatch_backlog e)
  pub readiness_json : disk.readiness_json ≡ stored (derive_readiness e)
  pub replay_json : disk.replay_json ≡ stored (snapshot e).replay
  pub dispatch_json : disk.dispatch_json ≡ stored (map written_record e.dispatch)
  pub mailbox_json : disk.mailbox_json ≡ stored e.mailbox

-- The engine that is read back: what is not in the files starts anew.
abbrev pub reopened : String → Bool → List Event → Engine → Engine
reopened state_dir compacting log e = record {
  authority = e.authority;
  dispatch = map written_record e.dispatch;
  mailbox = e.mailbox;
  replay = e.replay;
  event_log = if compacting then log else [];
  pending_events = [];
  event_log_loaded = compacting;
  state_dir = state_dir;
  dirty = clean;
}

pub exec_engine-Holds :
    (codec : Codec) (clock : ℕ → String) (state_dir : String) (compacting : Bool) (disk : StateDir)
    (e : Engine) (log : List Event)
    → (state_dir == "") ≡ false
    → Holds disk e log
    → exec_engine codec clock state_dir compacting disk ≡ reopened state_dir compacting log e
unfolding exec_engine new_runtime_engine snapshot
exec_engine-Holds codec clock state_dir compacting disk e log named h =
    elim (Bool-cases compacting) [
      | inl c ↦ rw c (
          rw (named, h.snapshot_json, h.dispatch_json, h.mailbox_json, h.events_json, exec_engine)
            refl)
      | inr c ↦
          rw c (rw (named, h.snapshot_json, h.dispatch_json, h.mailbox_json, exec_engine) refl)
    ]
