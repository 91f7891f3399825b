-- ===== src/Runtime/Durable/Writes.antt =====
-- The writes of persist and writeCompatibilityView (cmd/nana-runtime/main.go).
use mathlib.Core.Path.{ap₂}
use nana.Prelude.{
  String, Bool, ◌≡◌, refl, some, List, [], ◌∷◌, map, arith, true, false, ◌==◌, trim_space, ap, ◌∙◌,
  sym,
}
use nana.Runtime.State.{Event, Engine, clean, DispatchRecord}
use nana.Runtime.Snapshot.{
  snapshot, dispatch_backlog, derive_readiness, backlog_from, count_status, BacklogSnapshot,
  no_backlog,
}
use nana.Runtime.Files.{
  StateDir, stored, written_record, persist, write_compatibility_view, save, event_reply, File,
  write_if_dirty, persist_event_log, persist_reply, view_reply,
}
use nana.Runtime.Durable.Held.{Holds, reopened}
use nana.Runtime.Durable.Marks.{IsMarked}

backlog_from-written :
    (b : BacklogSnapshot) (rs : List DispatchRecord)
    → backlog_from b (map written_record rs) ≡ backlog_from b rs
unfolding backlog_from written_record
backlog_from-written b [] = refl
backlog_from-written b (r ∷ rs) = backlog_from-written (count_status r.status b) rs

pub map-written_idem :
    (rs : List DispatchRecord) → map written_record (map written_record rs) ≡ map written_record rs
unfolding written_record
map-written_idem [] = refl
map-written_idem (r ∷ rs) = ap₂ ◌∷◌ (ground arith) (map-written_idem rs)

pub write_if_dirty-stored :
    {A : Type 0} (dirty : Bool) (value : A) (file : File A)
    → (dirty ≡ false → file ≡ stored value)
    → write_if_dirty dirty value file ≡ stored value
unfolding write_if_dirty
write_if_dirty-stored true value file h = refl
write_if_dirty-stored false value file h = rw (h refl) refl

pub backlog-reopened :
    (a b : Engine)
    → b.dispatch ≡ map written_record a.dispatch
    → dispatch_backlog b ≡ dispatch_backlog a
unfolding dispatch_backlog
backlog-reopened a b h = rw h (backlog_from-written no_backlog a.dispatch)

pub readiness-eq :
    (a b : Engine) → b.authority ≡ a.authority → derive_readiness b ≡ derive_readiness a
unfolding derive_readiness
readiness-eq a b h = rw h refl

pub snapshot-reopened :
    (a b : Engine)
    → b.authority ≡ a.authority
    → b.dispatch ≡ map written_record a.dispatch
    → b.replay ≡ a.replay
    → snapshot b ≡ snapshot a
unfolding snapshot
snapshot-reopened a b p q r = cc (backlog-reopened a b q, readiness-eq a b p)

abbrev cleared : Engine → Engine
cleared b = record b {
  dirty = record (b.dirty) { snapshot = false; events = false };
  pending_events = [];
}

module _ (disk : StateDir) (b : Engine) (named : (trim_space b.state_dir == "") ≡ false) where
  persist-eq :
      (file : File (List Event))
      → b.dirty.events ≡ true
      → persist_event_log b disk.events_json ≡ some file
      → persist disk b ≡ (
        record disk {
          snapshot_json = write_if_dirty b.dirty.snapshot (snapshot b) disk.snapshot_json;
          events_json = file;
        },
        cleared b,
        true,
      )
  unfolding persist persist_event_log snapshot dispatch_backlog derive_readiness
  persist-eq file pending events = rw (named, pending, events, persist) refl

  view-eq :
      (other : StateDir)
      → write_compatibility_view other (cleared b) ≡ (
        record other {
          authority_json = write_if_dirty b.dirty.authority b.authority other.authority_json;
          backlog_json = write_if_dirty b.dirty.backlog (dispatch_backlog b) other.backlog_json;
          readiness_json =
              write_if_dirty b.dirty.readiness (derive_readiness b) other.readiness_json;
          replay_json = write_if_dirty b.dirty.replay (snapshot b).replay other.replay_json;
          dispatch_json =
              write_if_dirty b.dirty.dispatch (map written_record b.dispatch) other.dispatch_json;
          mailbox_json = write_if_dirty b.dirty.mailbox b.mailbox other.mailbox_json;
        },
        record b { dirty = clean; pending_events = [] },
        true,
      )
  unfolding write_compatibility_view snapshot dispatch_backlog derive_readiness
  view-eq other = rw (named, write_compatibility_view) refl

  pub save-eq :
      (file : File (List Event)) (event : Event)
      → b.dirty.events ≡ true
      → persist_event_log b disk.events_json ≡ some file
      → save disk b event ≡ (
        record disk {
          snapshot_json = write_if_dirty b.dirty.snapshot (snapshot b) disk.snapshot_json;
          events_json = file;
          authority_json = write_if_dirty b.dirty.authority b.authority disk.authority_json;
          backlog_json = write_if_dirty b.dirty.backlog (dispatch_backlog b) disk.backlog_json;
          readiness_json =
              write_if_dirty b.dirty.readiness (derive_readiness b) disk.readiness_json;
          replay_json = write_if_dirty b.dirty.replay (snapshot b).replay disk.replay_json;
          dispatch_json =
              write_if_dirty b.dirty.dispatch (map written_record b.dispatch) disk.dispatch_json;
          mailbox_json = write_if_dirty b.dirty.mailbox b.mailbox disk.mailbox_json;
        },
        event_reply event,
      )
  unfolding save
  save-eq file event pending events =
      ap (λ p. persist_reply p event) (persist-eq file pending events)
      ∙ ap (λ p. view_reply p event) (view-eq _)

module _ (disk : StateDir) (state_dir : String) (compacting : Bool) (e b : Engine)
    (log log' : List Event) (h : Holds disk e log)
    (marked : IsMarked (reopened state_dir compacting log e) b) where
  pub save-Holds :
      (event : Event)
      → (trim_space b.state_dir == "") ≡ false
      → b.dirty.events ≡ true
      → persist_event_log b disk.events_json ≡ some (stored log')
      → ((save disk b event).1 ≡ event_reply event) × Holds (save disk b event).0 b log'
  save-Holds event named pending events =
      rw (save-eq disk b named (stored log') event pending events) (
        refl,
        record {
          snapshot_json = write_if_dirty-stored _ _ _ λ f.
              h.snapshot_json
              ∙ ap stored (
                  sym (
                    snapshot-reopened e b (marked.snapshot_flag f).0 (marked.snapshot_flag f).1
                      (marked.snapshot_flag f).2));
          events_json = refl;
          authority_json =
              write_if_dirty-stored _ _ _
                λ f. h.authority_json ∙ ap stored (sym (marked.authority_flag f));
          backlog_json =
              write_if_dirty-stored _ _ _ λ f.
                h.backlog_json ∙ ap stored (sym (backlog-reopened e b (marked.backlog_flag f)));
          readiness_json =
              write_if_dirty-stored _ _ _ λ f.
                h.readiness_json ∙ ap stored (sym (readiness-eq e b (marked.readiness_flag f)));
          replay_json =
              write_if_dirty-stored _ _ _
                λ f. h.replay_json ∙ ap stored (unfold snapshot in (rw (marked.replay_flag f)));
          dispatch_json = write_if_dirty-stored _ _ _ λ f.
              h.dispatch_json
              ∙ ap stored (rw (marked.dispatch_flag f) (sym (map-written_idem e.dispatch)));
          mailbox_json =
              write_if_dirty-stored _ _ _
                λ f. h.mailbox_json ∙ ap stored (sym (marked.mailbox_flag f));
        },
      )
