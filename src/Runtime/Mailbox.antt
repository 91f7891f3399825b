-- ===== src/Runtime/Mailbox.antt =====
-- cmd/nana-runtime/main.go: the mailbox log. Each function that stamps a record takes the time.
use nana.Prelude.{
  String, Option, none, some, List, [], ◌∷◌, ◌++◌, if◌then◌else◌, is_some, find_key, set_key,
}
use nana.Runtime.State.{
  MailboxRecord, Engine, RuntimeError, mailbox_not_found, mailbox_already_delivered,
}

unfoldable pub create_mailbox_message : String → String → String → String → String → Engine → Engine
create_mailbox_message now message_id from_worker to_worker body e = record e {
  mailbox =
      e.mailbox
      ++ (record {
        message_id = message_id;
        from_worker = from_worker;
        to_worker = to_worker;
        body = body;
        created_at = now;
        notified_at = none;
        delivered_at = none;
      })
        ∷ [];
}

unfoldable pub find_mailbox : String → List MailboxRecord → Option MailboxRecord
unfolding find_key
find_mailbox = find_key (λ r. r.message_id)

-- A write through the pointer that `findMailbox` returns.
unfoldable pub store_mailbox : String → MailboxRecord → Engine → Engine
unfolding set_key
store_mailbox message_id r e = record e {
  mailbox = set_key (λ r. r.message_id) message_id r e.mailbox;
}

unfoldable pub mark_mailbox_notified : String → String → Engine → Engine × Option RuntimeError
mark_mailbox_notified now message_id e = elim (find_mailbox message_id e.mailbox) [
  | none ↦ (e, some (mailbox_not_found message_id))
  | some r ↦
      if is_some r.delivered_at
      then (e, some (mailbox_already_delivered message_id))
      else (store_mailbox message_id (record r { notified_at = some now }) e, none)
]

unfoldable pub mark_mailbox_delivered : String → String → Engine → Engine × Option RuntimeError
mark_mailbox_delivered now message_id e = elim (find_mailbox message_id e.mailbox) [
  | none ↦ (e, some (mailbox_not_found message_id))
  | some r ↦
      if is_some r.delivered_at
      then (e, some (mailbox_already_delivered message_id))
      else (store_mailbox message_id (record r { delivered_at = some now }) e, none)
]
