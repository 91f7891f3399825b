-- ===== src/Runtime/Rebuild/Same.antt =====
-- A live engine and one rebuilt from events, and the methods that keep them alike (the methods of
-- runtimeEngine in cmd/nana-runtime/main.go).
use nana.Prelude.{
  ◌||◌, String, ◌≡◌, refl, sym, Option, none, some, arith, eq_iff, ◌==◌, inl, inr, ◌⊎◌, Bool-cases,
  Option-cases, is_some,
}
use nana.Prelude.Pairwise.{Pairwise, Pairwise-append_one, Pairwise-find, Pairwise-set}
use nana.Runtime.State.{Authority, DispatchRecord, MailboxRecord, Engine}
use nana.Runtime.Lease.{acquire_authority, renew_authority}
use nana.Runtime.Dispatch.{
  kept_metadata, is_pending, is_notified, find_dispatch, store_dispatch, queue_dispatch,
  mark_notified, mark_delivered, mark_failed,
}
use nana.Runtime.Mailbox.{
  find_mailbox, store_mailbox, mark_mailbox_notified, mark_mailbox_delivered,
  create_mailbox_message,
}
use nana.Runtime.Command.{Codec}

-- The metadata that a replay restores: what the decoded value is encoded to.
abbrev pub restored : Codec → Option String → Option String
restored codec none = none
restored codec (some m) = kept_metadata (codec.encode_any (codec.decode_any m))

-- A live record and the one rebuilt from the events: times are not compared, only which are set.
pub record SameDispatch (codec : Codec) (a b : DispatchRecord) : Type 0 where
  pub request_id : a.request_id ≡ b.request_id
  pub target : a.target ≡ b.target
  pub status : a.status ≡ b.status
  pub notified : is_some a.notified_at ≡ is_some b.notified_at
  pub delivered : is_some a.delivered_at ≡ is_some b.delivered_at
  pub failed : is_some a.failed_at ≡ is_some b.failed_at
  pub reason : a.reason ≡ b.reason
  pub metadata : restored codec a.metadata ≡ b.metadata

pub record SameMessage (a b : MailboxRecord) : Type 0 where
  pub message_id : a.message_id ≡ b.message_id
  pub from_worker : a.from_worker ≡ b.from_worker
  pub to_worker : a.to_worker ≡ b.to_worker
  pub body : a.body ≡ b.body
  pub notified : is_some a.notified_at ≡ is_some b.notified_at
  pub delivered : is_some a.delivered_at ≡ is_some b.delivered_at

pub record SameEngine (codec : Codec) (a b : Engine) : Type 0 where
  pub authority : a.authority ≡ b.authority
  pub dispatch : Pairwise (SameDispatch codec) a.dispatch b.dispatch
  pub mailbox : Pairwise SameMessage a.mailbox b.mailbox
  pub replay : a.replay ≡ b.replay

pub kept_idem :
    (metadata : Option String) → kept_metadata (kept_metadata metadata) ≡ kept_metadata metadata
unfolding kept_metadata
kept_idem none = refl
kept_idem (some m) = elim (Bool-cases (m == "" || m == "null")) [
  | inl dropped ↦ rw dropped
  | inr kept ↦ rw (kept, kept_metadata) (rw kept)
]

kept-restored :
    (codec : Codec) (metadata : Option String)
    → kept_metadata (restored codec metadata) ≡ restored codec metadata
kept-restored codec none = unfold kept_metadata in refl
kept-restored codec (some m) = kept_idem (codec.encode_any (codec.decode_any m))

module _ (codec : Codec) (x y : Engine) (same : SameEngine codec x y) where
  pub lease-Same :
      {a b : Authority}
      → a ≡ b
      → SameEngine codec (record x { authority = a }) (record y { authority = b })
  lease-Same p = record {
    authority = p;
    dispatch = same.dispatch;
    mailbox = same.mailbox;
    replay = same.replay;
  }

  pub acquire-Same :
      (owner lease_id leased_until : String)
      → (acquire_authority owner lease_id leased_until x).1 ≡ none
      → SameEngine codec
          (acquire_authority owner lease_id leased_until x).0
          (acquire_authority owner lease_id leased_until y).0
  unfolding acquire_authority
  acquire-Same owner lease_id leased_until h = elim (Option-cases y.authority.owner) [
    | inl free ↦ rw (same.authority, free, acquire_authority) (lease-Same refl)
    | inr (held, taken) ↦ elim (Bool-cases (held == owner)) [
      | inl mine ↦ rw (same.authority, taken, mine, acquire_authority) (lease-Same refl)
      | inr other ↦ rw (same.authority, taken, other, acquire_authority) same
    ]
  ]

  found_dispatch :
      (id : String)
      → ((find_dispatch id x.dispatch ≡ none) × (find_dispatch id y.dispatch ≡ none))
        ⊎ ((a : DispatchRecord) × (b : DispatchRecord) × (find_dispatch id x.dispatch ≡ some a)
            × (find_dispatch id y.dispatch ≡ some b)
            × SameDispatch codec a b)
  unfolding find_dispatch
  found_dispatch id =
      Pairwise-find (SameDispatch codec) (λ r. r.request_id) (λ a b s. s.request_id) id x.dispatch
        y.dispatch same.dispatch

  pub store_dispatch-Same :
      (id : String) (a b : DispatchRecord)
      → SameDispatch codec a b
      → SameEngine codec (store_dispatch id a x) (store_dispatch id b y)
  unfolding store_dispatch
  store_dispatch-Same id a b s = record {
    authority = same.authority;
    dispatch =
        Pairwise-set (SameDispatch codec) (λ r. r.request_id) (λ a b s. s.request_id) id x.dispatch
          y.dispatch a b s same.dispatch;
    mailbox = same.mailbox;
    replay = same.replay;
  }

  pub queue-Same :
      (now later id target : String) (metadata : Option String)
      → SameEngine codec
          (queue_dispatch now id target metadata x)
          (queue_dispatch later id target (restored codec (kept_metadata metadata)) y)
  unfolding queue_dispatch kept_metadata
  queue-Same now later id target metadata = record {
    authority = same.authority;
    dispatch =
        Pairwise-append_one (SameDispatch codec) x.dispatch y.dispatch _ _
          (record {
            request_id = refl;
            target = refl;
            status = refl;
            notified = refl;
            delivered = refl;
            failed = refl;
            reason = refl;
            metadata = sym (kept-restored codec (kept_metadata metadata));
          })
          same.dispatch;
    mailbox = same.mailbox;
    replay = same.replay;
  }

  pub mark_notified-Same :
      (now later id channel : String)
      → SameEngine codec (mark_notified now id channel x).0 (mark_notified later id channel y).0
  unfolding mark_notified
  mark_notified-Same now later id channel = elim (found_dispatch id) [
    | inl (p, q) ↦ rw (p, q, mark_notified) same
    | inr (a, b, p, q, s) ↦ elim (Bool-cases (is_pending b.status)) [
      | inl t ↦ rw (p, q, s.status, t, mark_notified) (store_dispatch-Same id _ _ (ground arith))
      | inr t ↦ rw (p, q, s.status, t, mark_notified) same
    ]
  ]

  pub mark_delivered-Same :
      (now later id : String)
      → SameEngine codec (mark_delivered now id x).0 (mark_delivered later id y).0
  unfolding mark_delivered
  mark_delivered-Same now later id = elim (found_dispatch id) [
    | inl (p, q) ↦ rw (p, q, mark_delivered) same
    | inr (a, b, p, q, s) ↦ elim (Bool-cases (is_notified b.status)) [
      | inl t ↦ rw (p, q, s.status, t, mark_delivered) (store_dispatch-Same id _ _ (ground arith))
      | inr t ↦ rw (p, q, s.status, t, mark_delivered) same
    ]
  ]

  pub mark_failed-Same :
      (now later id reason : String)
      → SameEngine codec (mark_failed now id reason x).0 (mark_failed later id reason y).0
  unfolding mark_failed
  mark_failed-Same now later id reason = elim (found_dispatch id) [
    | inl (p, q) ↦ rw (p, q, mark_failed) same
    | inr (a, b, p, q, s) ↦ elim (Bool-cases (is_pending b.status || is_notified b.status)) [
      | inl t ↦ rw (p, q, s.status, t, mark_failed) (store_dispatch-Same id _ _ (ground arith))
      | inr t ↦ rw (p, q, s.status, t, mark_failed) same
    ]
  ]

  pub renew-Same :
      (owner lease_id leased_until : String)
      → (renew_authority owner lease_id leased_until x).1 ≡ none
      → SameEngine codec
          (renew_authority owner lease_id leased_until x).0
          (acquire_authority owner lease_id leased_until y).0
  unfolding acquire_authority renew_authority
  renew-Same owner lease_id leased_until h = elim (Option-cases x.authority.owner) [
    | inl free ↦ absurd (ground arith)
    | inr (held, taken) ↦ elim (Bool-cases (held == owner)) [
      | inl mine ↦
          rw (taken, mine, renew_authority)
            (rw (← same.authority, taken, mine, acquire_authority)
              (lease-Same (ground (arith, eq_iff held owner))))
      | inr other ↦ absurd (ground arith)
    ]
  ]

  found_mailbox :
      (id : String)
      → ((find_mailbox id x.mailbox ≡ none) × (find_mailbox id y.mailbox ≡ none))
        ⊎ ((a : MailboxRecord) × (b : MailboxRecord) × (find_mailbox id x.mailbox ≡ some a)
            × (find_mailbox id y.mailbox ≡ some b)
            × SameMessage a b)
  unfolding find_mailbox
  found_mailbox id =
      Pairwise-find SameMessage (λ r. r.message_id) (λ a b s. s.message_id) id x.mailbox y.mailbox
        same.mailbox

  store_mailbox-Same :
      (id : String) (a b : MailboxRecord)
      → SameMessage a b
      → SameEngine codec (store_mailbox id a x) (store_mailbox id b y)
  unfolding store_mailbox
  store_mailbox-Same id a b s = record {
    authority = same.authority;
    dispatch = same.dispatch;
    mailbox =
        Pairwise-set SameMessage (λ r. r.message_id) (λ a b s. s.message_id) id x.mailbox y.mailbox
          a b s same.mailbox;
    replay = same.replay;
  }

  pub create_mailbox_message-Same :
      (now later id from to body : String)
      → SameEngine codec
          (create_mailbox_message now id from to body x)
          (create_mailbox_message later id from to body y)
  unfolding create_mailbox_message
  create_mailbox_message-Same now later id from to body = record {
    authority = same.authority;
    dispatch = same.dispatch;
    mailbox = Pairwise-append_one SameMessage x.mailbox y.mailbox _ _ (ground arith) same.mailbox;
    replay = same.replay;
  }

  pub mark_mailbox_notified-Same :
      (now later id : String)
      → SameEngine codec (mark_mailbox_notified now id x).0 (mark_mailbox_notified later id y).0
  unfolding mark_mailbox_notified
  mark_mailbox_notified-Same now later id = elim (found_mailbox id) [
    | inl (p, q) ↦ rw (p, q, mark_mailbox_notified) same
    | inr (a, b, p, q, s) ↦ elim (Bool-cases (is_some b.delivered_at)) [
      | inl t ↦ rw (p, q, s.delivered, t, mark_mailbox_notified) same
      | inr t ↦
          rw (p, q, s.delivered, t, mark_mailbox_notified)
            (store_mailbox-Same id _ _ (ground arith))
    ]
  ]

  pub mark_mailbox_delivered-Same :
      (now later id : String)
      → SameEngine codec (mark_mailbox_delivered now id x).0 (mark_mailbox_delivered later id y).0
  unfolding mark_mailbox_delivered
  mark_mailbox_delivered-Same now later id = elim (found_mailbox id) [
    | inl (p, q) ↦ rw (p, q, mark_mailbox_delivered) same
    | inr (a, b, p, q, s) ↦ elim (Bool-cases (is_some b.delivered_at)) [
      | inl t ↦ rw (p, q, s.delivered, t, mark_mailbox_delivered) same
      | inr t ↦
          rw (p, q, s.delivered, t, mark_mailbox_delivered)
            (store_mailbox-Same id _ _ (ground arith))
    ]
  ]
