-- ===== src/Runtime/Dispatch.antt =====
-- cmd/nana-runtime/main.go: the dispatch log. Each function that stamps a record takes the time.
use nana.Prelude.{
  String, Bool, true, false, Option, none, some, List, [], ◌∷◌, ◌++◌, ◌==◌, if◌then◌else◌, ◌||◌,
  find_key, set_key,
}
use nana.Runtime.State.{
  DispatchStatus, pending, notified, delivered, failed, DispatchRecord, Engine, RuntimeError,
  dispatch_not_found, invalid_transition,
}

abbrev pub is_pending : DispatchStatus → Bool
is_pending pending = true
is_pending _ = false

abbrev pub is_notified : DispatchStatus → Bool
is_notified notified = true
is_notified _ = false

-- `len(metadata) > 0 && string(metadata) != "null"`
unfoldable pub kept_metadata : Option String → Option String
kept_metadata none = none
kept_metadata (some m) = if m == "" || m == "null" then none else some m

unfoldable pub queued_record : String → String → String → Option String → DispatchRecord
queued_record now request_id target metadata = record {
  request_id = request_id;
  target = target;
  status = pending;
  created_at = now;
  notified_at = none;
  delivered_at = none;
  failed_at = none;
  reason = none;
  metadata = kept_metadata metadata;
}

unfoldable pub queue_dispatch : String → String → String → Option String → Engine → Engine
unfolding queued_record
queue_dispatch now request_id target metadata e = record e {
  dispatch = e.dispatch ++ queued_record now request_id target metadata ∷ [];
}

unfoldable pub find_dispatch : String → List DispatchRecord → Option DispatchRecord
unfolding find_key
find_dispatch = find_key (λ r. r.request_id)

-- A write through the pointer that `findDispatch` returns.
unfoldable pub store_dispatch : String → DispatchRecord → Engine → Engine
unfolding set_key
store_dispatch request_id r e = record e {
  dispatch = set_key (λ r. r.request_id) request_id r e.dispatch;
}

unfoldable pub mark_notified : String → String → String → Engine → Engine × Option RuntimeError
mark_notified now request_id channel e = elim (find_dispatch request_id e.dispatch) [
  | none ↦ (e, some (dispatch_not_found request_id))
  | some r ↦
      if is_pending r.status
      then (
        store_dispatch request_id
            (record r { status = notified; notified_at = some now; reason = some channel }) e,
        none,
      )
      else (e, some (invalid_transition request_id r.status notified))
]

unfoldable pub mark_delivered : String → String → Engine → Engine × Option RuntimeError
mark_delivered now request_id e = elim (find_dispatch request_id e.dispatch) [
  | none ↦ (e, some (dispatch_not_found request_id))
  | some r ↦
      if is_notified r.status
      then (
        store_dispatch request_id (record r { status = delivered; delivered_at = some now }) e,
        none,
      )
      else (e, some (invalid_transition request_id r.status delivered))
]

unfoldable pub mark_failed : String → String → String → Engine → Engine × Option RuntimeError
mark_failed now request_id reason e = elim (find_dispatch request_id e.dispatch) [
  | none ↦ (e, some (dispatch_not_found request_id))
  | some r ↦
      if is_pending r.status || is_notified r.status
      then (
        store_dispatch request_id
            (record r { status = failed; failed_at = some now; reason = some reason }) e,
        none,
      )
      else (e, some (invalid_transition request_id r.status failed))
]
