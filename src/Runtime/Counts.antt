-- ===== src/Runtime/Counts.antt =====
-- The backlog counters (dispatchBacklog in cmd/nana-runtime/main.go).
use nana.Prelude.{
  ℕ, suc, String, ◌≡◌, ◌≤◌, List, [], ◌∷◌, Bool, true, false, arith, ◌+◌, if◌then◌else◌, length,
}
use nana.Runtime.State.{DispatchStatus, delivered, failed, DispatchRecord, Engine}
use nana.Runtime.Dispatch.{is_pending, is_notified}
use nana.Runtime.Command.{Codec, Command, execute}
use nana.Runtime.Snapshot.{
  BacklogSnapshot, backlog_from, dispatch_backlog, no_backlog, count_status,
}
use nana.Runtime.Lifecycle.{
  Moves, kept, notifies, delivers, fails, Advances, done, new, moved, execute-Advances,
}

abbrev pub is_delivered : DispatchStatus → Bool
is_delivered delivered = true
is_delivered _ = false

abbrev pub is_failed : DispatchStatus → Bool
is_failed failed = true
is_failed _ = false

-- How many records have a status that passes the test.
pub count_if : (DispatchStatus → Bool) → List DispatchRecord → ℕ
count_if test [] = 0
count_if test (r ∷ rs) = let rest = count_if test rs in if test r.status then suc rest else rest

record Adds (b c : BacklogSnapshot) (rs : List DispatchRecord) : Type 0 where
  pending : c.pending_count ≡ b.pending_count + count_if is_pending rs
  notified : c.notified_count ≡ b.notified_count + count_if is_notified rs
  delivered : c.delivered_count ≡ b.delivered_count + count_if is_delivered rs
  failed : c.failed_count ≡ b.failed_count + count_if is_failed rs

backlog_from-Adds : (b : BacklogSnapshot) (rs : List DispatchRecord) → Adds b (backlog_from b rs) rs
unfolding backlog_from count_if
backlog_from-Adds b [] = ground arith
backlog_from-Adds b (r ∷ rs) = ground (arith, backlog_from-Adds (count_status r.status b) rs)

-- Each counter of the snapshot is the number of the records with that status.
pub dispatch_backlog-count_if :
    (e : Engine)
    → let b = dispatch_backlog e in
      (b.pending_count ≡ count_if is_pending e.dispatch)
      × (b.notified_count ≡ count_if is_notified e.dispatch)
      × (b.delivered_count ≡ count_if is_delivered e.dispatch)
      × (b.failed_count ≡ count_if is_failed e.dispatch)
unfolding dispatch_backlog
dispatch_backlog-count_if e = omega (arith, backlog_from-Adds no_backlog e.dispatch)

Moves-settled :
    {a b : DispatchRecord}
    → Moves a b
    → (is_delivered a.status ≡ true → is_delivered b.status ≡ true)
      × (is_failed a.status ≡ true → is_failed b.status ≡ true)
Moves-settled (kept e) = ground arith
Moves-settled (notifies now channel h e) = ground arith
Moves-settled (delivers now h e) = ground arith
Moves-settled (fails now reason h e) = ground arith

Advances-count_if :
    {rs bs : List DispatchRecord}
    → Advances rs bs
    → (count_if is_delivered rs ≤ count_if is_delivered bs)
      × (count_if is_failed rs ≤ count_if is_failed bs)
      × (length rs ≤ length bs)
unfolding count_if
Advances-count_if done = omega arith
Advances-count_if (new b h a) = ground (arith, Advances-count_if a)
Advances-count_if (moved m a) = ground (arith, Moves-settled m, Advances-count_if a)

-- No command lowers the number of delivered or of failed dispatches, or of records.
pub settled-execute :
    (codec : Codec) (now : String) (command : Command) (e : Engine)
    → let e' = (execute codec now command e).0 in
      ((dispatch_backlog e).delivered_count ≤ (dispatch_backlog e').delivered_count)
      × ((dispatch_backlog e).failed_count ≤ (dispatch_backlog e').failed_count)
      × (length e.dispatch ≤ length e'.dispatch)
settled-execute codec now command e = omega (
  arith,
  dispatch_backlog-count_if e,
  dispatch_backlog-count_if (execute codec now command e).0,
  Advances-count_if (execute-Advances codec now command e),
)
