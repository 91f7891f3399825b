-- ===== src/Runtime/Atomic.antt =====
-- An error of a command and the engine (processRawCommand in cmd/nana-runtime/main.go).
use nana.Prelude.{String, ◌≡◌, inl, inr, arith}
use nana.Runtime.State.{Engine, RuntimeError}
use nana.Runtime.Lease.{acquire_authority, renew_authority}
use nana.Runtime.Dispatch.{mark_notified, mark_delivered, mark_failed}
use nana.Runtime.Mailbox.{mark_mailbox_notified, mark_mailbox_delivered}
use nana.Runtime.Command.{
  Codec, Command, acquire_lease, err, Outcome-cases, decode_raw, execute, process_raw_command,
  finish,
}

pub execute_error_unchanged :
    (codec : Codec) (now : String) (command : Command) (e : Engine) (x : RuntimeError)
    → (execute codec now command e).1 ≡ err x
    → (execute codec now command e).0 ≡ e
unfolding execute finish acquire_authority renew_authority mark_notified mark_delivered mark_failed
    mark_mailbox_notified mark_mailbox_delivered
execute_error_unchanged codec now (acquire_lease a b c) e x h = ground arith
execute_error_unchanged codec now _ e x h = ground arith

-- A command that fails leaves the whole engine as it was: no record, flag or event changes.
pub process_error_unchanged :
    (codec : Codec) (now raw : String) (e : Engine) (x : RuntimeError)
    → (process_raw_command codec now raw e).1 ≡ err x
    → (process_raw_command codec now raw e).0 ≡ e
unfolding process_raw_command
process_error_unchanged codec now raw e x h = elim (Outcome-cases (decode_raw codec raw)) [
  | inl (command, d) ↦
      rw (d, process_raw_command)
        (execute_error_unchanged codec now command e x (rw (d, process_raw_command) at h))
  | inr (y, d) ↦ rw (d, process_raw_command)
]
