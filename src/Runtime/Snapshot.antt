-- ===== src/Runtime/Snapshot.antt =====
-- cmd/nana-runtime/main.go: snapshot, dispatchBacklog and deriveReadiness.
use nana.Prelude.{
  ℕ, ◌+◌, String, Bool, true, false, Option, none, some, List, [], ◌∷◌, if◌then◌else◌,
}
use nana.Runtime.State.{
  Authority, DispatchStatus, pending, notified, delivered, failed, other, DispatchRecord, Engine,
}

-- The counters are uint64, and each step of the loop adds 1: they are left unbounded.
pub record BacklogSnapshot : Type 0 where
  pub pending_count : ℕ
  pub notified_count : ℕ
  pub delivered_count : ℕ
  pub failed_count : ℕ

pub record ReplaySnapshot : Type 0 where
  pub cursor : Option String
  pub pending_events : ℕ
  pub last_replayed_event_id : Option String
  pub deferred_leader_notification : Bool

-- The reasons that deriveReadiness can give.
pub data Reason : Type 0 where
  not_acquired : Reason
  lease_stale : String → Reason

pub record ReadinessSnapshot : Type 0 where
  pub ready : Bool
  pub reasons : List Reason

-- authoritySnapshot has the fields of authorityLease.
pub record RuntimeSnapshot : Type 0 where
  pub schema_version : ℕ
  pub authority : Authority
  pub backlog : BacklogSnapshot
  pub replay : ReplaySnapshot
  pub readiness : ReadinessSnapshot

abbrev pub no_backlog : BacklogSnapshot
no_backlog = record { pending_count = 0; notified_count = 0; delivered_count = 0; failed_count = 0 }

-- One round of the loop of dispatchBacklog.
unfoldable pub count_status : DispatchStatus → BacklogSnapshot → BacklogSnapshot
count_status pending b = record b { pending_count = b.pending_count + 1 }
count_status notified b = record b { notified_count = b.notified_count + 1 }
count_status delivered b = record b { delivered_count = b.delivered_count + 1 }
count_status failed b = record b { failed_count = b.failed_count + 1 }
count_status (other _) b = b

unfoldable pub backlog_from : BacklogSnapshot → List DispatchRecord → BacklogSnapshot
unfolding count_status
backlog_from b [] = b
backlog_from b (r ∷ rs) = backlog_from (count_status r.status b) rs

unfoldable pub dispatch_backlog : Engine → BacklogSnapshot
unfolding backlog_from
dispatch_backlog e = backlog_from no_backlog e.dispatch

abbrev detail : Option String → String
detail none = ""
detail (some reason) = reason

unfoldable pub readiness_reasons : Authority → List Reason
readiness_reasons a = elim a.owner [
  | none ↦ not_acquired ∷ []
  | some owner ↦ if a.stale then lease_stale (detail a.stale_reason) ∷ [] else []
]

unfoldable pub derive_readiness : Engine → ReadinessSnapshot
unfolding readiness_reasons
derive_readiness e = elim (readiness_reasons e.authority) [
  | [] ↦ record { ready = true; reasons = [] }
  | reason ∷ rest ↦ record { ready = false; reasons = reason ∷ rest }
]

unfoldable pub snapshot : Engine → RuntimeSnapshot
snapshot e = record {
  schema_version = 1;
  authority = e.authority;
  backlog = dispatch_backlog e;
  replay = record {
    cursor = e.replay.cursor;
    pending_events = 0;
    last_replayed_event_id = none;
    deferred_leader_notification = e.replay.deferred_leader_notification;
  };
  readiness = derive_readiness e;
}
