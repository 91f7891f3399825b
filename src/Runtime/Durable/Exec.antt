-- ===== src/Runtime/Durable/Exec.antt =====
-- The case "exec" of runCLI on a directory that holds an engine (cmd/nana-runtime/main.go).
use nana.Prelude.{
  eq_iff, ℕ, String, Bool, ◌≡◌, refl, List, [], ◌∷◌, ◌++◌, true, false, Bool-cases, inl, inr, ◌==◌,
  trim_space, if◌then◌else◌, ap,
}
use nana.Runtime.State.{Event, Engine}
use nana.Runtime.Command.{Codec, ok, process_raw_command}
use nana.Runtime.Snapshot.{snapshot, dispatch_backlog, derive_readiness}
use nana.Runtime.Replay.{compact, compact_events}
use nana.Runtime.Files.{StateDir, exec, save, event_reply, persist_event_log, exec_reply}
use nana.Runtime.Durable.Held.{Holds, reopened, exec_engine-Holds}
use nana.Runtime.Durable.Marks.{IsProcessed, process-IsProcessed}
use nana.Runtime.Durable.Writes.{save-Holds}

not_empty : (state_dir : String) → (trim_space state_dir == "") ≡ false → (state_dir == "") ≡ false
unfolding trim_space
not_empty state_dir h = elim (Bool-cases (state_dir == "")) [
  | inl e ↦ absurd (cc (rw ((eq_iff state_dir "").0 e) at h))
  | inr e ↦ e
]

abbrev pub next_log : Bool → Engine → List Event → Event → List Event
next_log compacting b log event =
    if compacting then compact_events b.dispatch (log ++ event ∷ []) else log ++ event ∷ []

abbrev compacted : Engine → Engine
compacted b = record b {
  event_log = compact_events b.dispatch b.event_log;
  dirty = record (b.dirty) { events = true };
}

compact-eq : (b : Engine) → b.event_log_loaded ≡ true → compact b ≡ compacted b
unfolding compact
compact-eq b h = rw (h, compact) refl

module _ (disk : StateDir) (state_dir : String) (e b : Engine) (log : List Event) (event : Event)
    (h : Holds disk e log) (named : (trim_space state_dir == "") ≡ false) where
  save_plain-Holds :
      IsProcessed (reopened state_dir false log e) b event
      → ((save disk b event).1 ≡ event_reply event)
        × Holds (save disk b event).0 b (log ++ event ∷ [])
  unfolding persist_event_log
  save_plain-Holds p =
      save-Holds disk state_dir false e b log (log ++ event ∷ []) h p.marked event
        (rw p.marked.state_dir named) p.events_flag
        (rw (p.marked.loaded, p.pending_events, h.events_json, persist_event_log) refl)

  save-compact-Holds :
      IsProcessed (reopened state_dir true log e) b event
      → ((save disk (compact b) event).1 ≡ event_reply event)
        × Holds (save disk (compact b) event).0 b (compact_events b.dispatch (log ++ event ∷ []))
  unfolding persist_event_log snapshot dispatch_backlog derive_readiness
  save-compact-Holds p =
      let saved =
        save-Holds disk state_dir true e (compacted b) log
          (compact_events b.dispatch (log ++ event ∷ [])) h
          (record {
            state_dir = p.marked.state_dir;
            loaded = p.marked.loaded;
            snapshot_flag = p.marked.snapshot_flag;
            authority_flag = p.marked.authority_flag;
            readiness_flag = p.marked.readiness_flag;
            backlog_flag = p.marked.backlog_flag;
            dispatch_flag = p.marked.dispatch_flag;
            replay_flag = p.marked.replay_flag;
            mailbox_flag = p.marked.mailbox_flag;
          })
          event (rw p.marked.state_dir named) refl
          (rw (p.marked.loaded, p.event_log, persist_event_log) refl) in
      rw (compact-eq b p.marked.loaded) (
        saved.0,
        record {
          snapshot_json = saved.1.snapshot_json;
          events_json = saved.1.events_json;
          authority_json = saved.1.authority_json;
          backlog_json = saved.1.backlog_json;
          readiness_json = saved.1.readiness_json;
          replay_json = saved.1.replay_json;
          dispatch_json = saved.1.dispatch_json;
          mailbox_json = saved.1.mailbox_json;
        },
      )

save_processed-Holds :
    (compacting : Bool) (disk : StateDir) (state_dir : String) (e b : Engine) (log : List Event)
    (event : Event)
    → Holds disk e log
    → (trim_space state_dir == "") ≡ false
    → IsProcessed (reopened state_dir compacting log e) b event
    → ((save disk (if compacting then compact b else b) event).1 ≡ event_reply event)
      × Holds
          (save disk (if compacting then compact b else b) event).0
          b
          (next_log compacting b log event)
save_processed-Holds true disk state_dir e b log event h named p =
    save-compact-Holds disk state_dir e b log event h named p
save_processed-Holds false disk state_dir e b log event h named p =
    save_plain-Holds disk state_dir e b log event h named p

module _ (codec : Codec) (clock : ℕ → String) (now state_dir raw : String) (compacting : Bool)
    (disk : StateDir) (e : Engine) (log : List Event) (named : (trim_space state_dir == "") ≡ false)
    (h : Holds disk e log) where
  abbrev pub started : Engine
  started = reopened state_dir compacting log e

  exec-eq :
      exec codec clock now state_dir compacting raw disk
      ≡ exec_reply state_dir compacting disk (process_raw_command codec now raw started)
  unfolding exec
  exec-eq =
      ap (λ s. exec_reply state_dir compacting disk (process_raw_command codec now raw s))
        (exec_engine-Holds codec clock state_dir compacting disk e log (not_empty state_dir named)
          h)

  -- A command that succeeds leaves a directory that holds the engine it has given, and whose log is
  -- the old one with the event behind it, compacted if that was asked for.
  pub exec-Holds :
      (event : Event)
      → (process_raw_command codec now raw started).1 ≡ ok event
      → let b = (process_raw_command codec now raw started).0 in
        ((exec codec clock now state_dir compacting raw disk).1 ≡ event_reply event)
        × Holds
            (exec codec clock now state_dir compacting raw disk).0
            b
            (next_log compacting b log event)
  unfolding exec_reply
  exec-Holds event done = rw exec-eq (
      rw (done, not_empty state_dir named, exec_reply)
        (save_processed-Holds compacting disk state_dir e _ log event h named
          (process-IsProcessed codec now raw started event done)))
