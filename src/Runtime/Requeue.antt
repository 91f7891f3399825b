-- ===== src/Runtime/Requeue.antt =====
-- A request id that is queued again (queueDispatch, findDispatch and compact in
-- cmd/nana-runtime/main.go).
use nana.Prelude.{
  String, ◌≡◌, Option, some, List, [], ◌∷◌, ◌++◌, true, arith, ◌==◌, Bool-cases, inl, inr, find_key,
}
use nana.Runtime.State.{notified, delivered, failed, DispatchRecord, Engine, invalid_transition}
use nana.Runtime.Dispatch.{
  find_dispatch, queued_record, queue_dispatch, mark_notified, mark_delivered, mark_failed,
}
use nana.Runtime.Replay.{is_terminal}

find-append :
    (id : String) (rs : List DispatchRecord) (r b : DispatchRecord)
    → find_dispatch id rs ≡ some r
    → find_dispatch id (rs ++ b ∷ []) ≡ some r
unfolding find_dispatch find_key
find-append id [] r b h = cc
find-append id (x ∷ rs) r b h = elim (Bool-cases (x.request_id == id)) [
  | inl hit ↦ rw (hit, find_key) (rw (hit, find_key) at h)
  | inr miss ↦ rw (miss, find_key) (find-append id rs r b (rw (miss, find_key) at h))
]

-- If the first record of a request id is settled, a dispatch queued again under that id cannot be
-- notified, delivered or failed: each of the three finds the settled record and reports its status.
pub requeued_is_stuck :
    (now later id target argument : String) (metadata : Option String) (e : Engine)
    (r : DispatchRecord)
    → find_dispatch id e.dispatch ≡ some r
    → is_terminal r.status ≡ true
    → let e' = queue_dispatch now id target metadata e in
      (mark_notified later id argument e' ≡ (e', some (invalid_transition id r.status notified)))
      × (mark_delivered later id e' ≡ (e', some (invalid_transition id r.status delivered)))
      × (mark_failed later id argument e' ≡ (e', some (invalid_transition id r.status failed)))
unfolding mark_notified mark_delivered mark_failed queue_dispatch
requeued_is_stuck now later id target argument metadata e r h settled =
    ground (arith, find-append id e.dispatch r (queued_record now id target metadata) h)
