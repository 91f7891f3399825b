-- ===== src/Runtime/Durable/Marks.antt =====
-- The dirty flags (markAuthorityStateChanged and its like in cmd/nana-runtime/main.go).
use nana.Runtime.Rebuild.Log.{pending-execute}
use nana.Prelude.{String, ◌≡◌, [], ◌∷◌, ◌++◌, arith, true, false, inl, inr, if◌then◌else◌}
use nana.Runtime.State.{Event, Engine}
use nana.Runtime.Lease.{acquire_authority, renew_authority}
use nana.Runtime.Dispatch.{
  mark_notified, mark_delivered, mark_failed, queue_dispatch, store_dispatch,
}
use nana.Runtime.Mailbox.{
  mark_mailbox_notified, mark_mailbox_delivered, create_mailbox_message, store_mailbox,
}
use nana.Runtime.Command.{
  Codec, Command, acquire_lease, ok, execute, finish, process_raw_command, decode_raw,
  Outcome-cases,
}

-- What a command changes is marked: where a flag is down, the part is as it was.
pub record IsMarked (a b : Engine) : Type 0 where
  pub state_dir : b.state_dir ≡ a.state_dir
  pub loaded : b.event_log_loaded ≡ a.event_log_loaded
  pub snapshot_flag :
      b.dirty.snapshot ≡ false
      → (b.authority ≡ a.authority) × (b.dispatch ≡ a.dispatch) × (b.replay ≡ a.replay)
  pub authority_flag : b.dirty.authority ≡ false → b.authority ≡ a.authority
  pub readiness_flag : b.dirty.readiness ≡ false → b.authority ≡ a.authority
  pub backlog_flag : b.dirty.backlog ≡ false → b.dispatch ≡ a.dispatch
  pub dispatch_flag : b.dirty.dispatch ≡ false → b.dispatch ≡ a.dispatch
  pub replay_flag : b.dirty.replay ≡ false → b.replay ≡ a.replay
  pub mailbox_flag : b.dirty.mailbox ≡ false → b.mailbox ≡ a.mailbox

execute-IsMarked :
    (codec : Codec) (now : String) (command : Command) (e : Engine) (event : Event)
    → (execute codec now command e).1 ≡ ok event
    → IsMarked e (execute codec now command e).0
unfolding execute finish acquire_authority renew_authority mark_notified mark_delivered mark_failed
    mark_mailbox_notified mark_mailbox_delivered queue_dispatch create_mailbox_message
    store_dispatch store_mailbox
execute-IsMarked codec now (acquire_lease a b c) e event h = ground arith
execute-IsMarked codec now _ e event h = ground arith

-- What a command that succeeds has done to the engine besides.
pub record IsProcessed (a b : Engine) (event : Event) : Type 0 where
  pub marked : IsMarked a b
  pub pending_events : b.pending_events ≡ a.pending_events ++ event ∷ []
  pub event_log :
      b.event_log ≡ (if a.event_log_loaded then a.event_log ++ event ∷ [] else a.event_log)
  pub events_flag : b.dirty.events ≡ true

log-execute :
    (codec : Codec) (now : String) (command : Command) (e : Engine) (event : Event)
    → (execute codec now command e).1 ≡ ok event
    → ((execute codec now command e).0.event_log
        ≡ (if e.event_log_loaded then e.event_log ++ event ∷ [] else e.event_log))
      × ((execute codec now command e).0.dirty.events ≡ true)
unfolding execute finish acquire_authority renew_authority mark_notified mark_delivered mark_failed
    mark_mailbox_notified mark_mailbox_delivered queue_dispatch create_mailbox_message
    store_dispatch store_mailbox
log-execute codec now (acquire_lease a b c) e event h = ground arith
log-execute codec now _ e event h = ground arith

pub process-IsProcessed :
    (codec : Codec) (now raw : String) (e : Engine) (event : Event)
    → (process_raw_command codec now raw e).1 ≡ ok event
    → IsProcessed e (process_raw_command codec now raw e).0 event
unfolding process_raw_command
process-IsProcessed codec now raw e event h = elim (Outcome-cases (decode_raw codec raw)) [
  | inl (command, d) ↦
      let done : (execute codec now command e).1 ≡ ok event = rw (d, process_raw_command) at h in
      rw (d, process_raw_command)
        (record {
          marked = execute-IsMarked codec now command e event done;
          pending_events = pending-execute codec now command e event done;
          event_log = (log-execute codec now command e event done).0;
          events_flag = (log-execute codec now command e event done).1;
        })
  | inr (x, d) ↦ absurd (ground (arith, d))
]
