-- ===== src/Runtime/Holding.antt =====
-- Who holds the authority lease (acquireAuthority and renewAuthority in cmd/nana-runtime/main.go).
use nana.Prelude.{String, ◌≡◌, ◌≢◌, some, List, [], ◌∷◌, false, arith, eq_iff}
use nana.Runtime.State.{Engine, lease_already_held, owner_mismatch}
use nana.Runtime.Lease.{acquire_authority, renew_authority}
use nana.Runtime.Dispatch.{
  mark_notified, mark_delivered, mark_failed, queue_dispatch, store_dispatch,
}
use nana.Runtime.Mailbox.{
  mark_mailbox_notified, mark_mailbox_delivered, create_mailbox_message, store_mailbox,
}
use nana.Runtime.Command.{Codec, Command, acquire_lease, renew_lease, err, execute, finish}

-- The engine behind a list of commands, each with its time; a command that fails is passed over.
unfoldable pub run : Codec → List (String × Command) → Engine → Engine
run codec [] e = e
run codec ((now, command) ∷ rest) e = run codec rest (execute codec now command e).0

owner-execute :
    (codec : Codec) (now : String) (command : Command) (e : Engine) (held : String)
    → e.authority.owner ≡ some held
    → (execute codec now command e).0.authority.owner ≡ some held
unfolding execute finish acquire_authority renew_authority mark_notified mark_delivered mark_failed
    mark_mailbox_notified mark_mailbox_delivered queue_dispatch create_mailbox_message
    store_dispatch store_mailbox
owner-execute codec now (acquire_lease a b c) e held h = ground (arith, eq_iff held a)
owner-execute codec now (renew_lease a b c) e held h = ground (arith, eq_iff held a)
owner-execute codec now _ e held h = ground arith

-- Once a lease has an owner, no commands whatever take it away or give it to another.
pub owner-run :
    (codec : Codec) (commands : List (String × Command)) (e : Engine) (held : String)
    → e.authority.owner ≡ some held
    → (run codec commands e).authority.owner ≡ some held
unfolding run
owner-run codec [] e held h = h
owner-run codec ((now, command) ∷ rest) e held h =
    owner-run codec rest (execute codec now command e).0 held
      (owner-execute codec now command e held h)

-- While another holds the lease, acquiring and renewing it fail with the holder's name.
pub refused_to_others :
    (codec : Codec) (commands : List (String × Command)) (e : Engine) (held owner : String)
    (now lease_id leased_until : String)
    → e.authority.owner ≡ some held
    → held ≢ owner
    → ((execute codec now (acquire_lease owner lease_id leased_until) (run codec commands e)).1
        ≡ err (lease_already_held held))
      × ((execute codec now (renew_lease owner lease_id leased_until) (run codec commands e)).1
          ≡ err (owner_mismatch held))
unfolding execute finish acquire_authority renew_authority
refused_to_others codec commands e held owner now lease_id leased_until h other =
    ground (arith, owner-run codec commands e held h, eq_iff held owner)

stale-execute :
    (codec : Codec) (now : String) (command : Command) (e : Engine)
    → e.authority.stale ≡ false
    → (execute codec now command e).0.authority.stale ≡ false
unfolding execute finish acquire_authority renew_authority mark_notified mark_delivered mark_failed
    mark_mailbox_notified mark_mailbox_delivered queue_dispatch create_mailbox_message
    store_dispatch store_mailbox
stale-execute codec now (acquire_lease a b c) e h = ground arith
stale-execute codec now _ e h = ground arith

pub stale-run :
    (codec : Codec) (commands : List (String × Command)) (e : Engine)
    → e.authority.stale ≡ false
    → (run codec commands e).authority.stale ≡ false
unfolding run
stale-run codec [] e h = h
stale-run codec ((now, command) ∷ rest) e h =
    stale-run codec rest (execute codec now command e).0 (stale-execute codec now command e h)
