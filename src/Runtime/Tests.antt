-- ===== src/Runtime/Tests.antt =====
-- The runtime engine on concrete commands (cmd/nana-runtime/main.go).
use nana.Prelude.{
  String, ◌≡◌, refl, Option, none, some, List, [], ◌∷◌, false, arith, eq_iff, ◌==◌, if◌then◌else◌,
  trim_space, ℕ, is_some, length, ◌≤◌,
}
use nana.Runtime.Append.{
  runtime_json_whitespace, read_at, backwards, scan_chunk, scan_back,
  find_json_array_append_position,
}
use nana.Runtime.Position.{last_bracket, find_json_array_append_position-last_bracket}
use nana.Runtime.State.{
  notified, delivered, failed, DispatchRecord, Value, null, text, json, Event, Engine,
  new_runtime_engine, unknown_command, lease_already_held, owner_mismatch, invalid_transition,
  missing_field,
}
use nana.Runtime.Lease.{acquire_authority}
use nana.Runtime.Dispatch.{
  find_dispatch, store_dispatch, queue_dispatch, mark_notified, mark_delivered, mark_failed,
  kept_metadata,
}
use nana.Runtime.Mailbox.{
  find_mailbox, store_mailbox, create_mailbox_message, mark_mailbox_notified,
}
use nana.Runtime.Command.{
  Codec, Command, acquire_lease, renew_lease, queue, notify_dispatch, deliver_dispatch,
  fail_dispatch, create_message, notify_message, err, decode_raw, execute, finish,
  process_raw_command,
}
use nana.Runtime.Snapshot.{dispatch_backlog, derive_readiness, snapshot, not_acquired}
use nana.Runtime.Replay.{replay_events}
use nana.Runtime.Files.{
  StateDir, exec, persist, write_compatibility_view, no_files, event_reply, init,
}
use nana.Runtime.Atomic.{process_error_unchanged}
use nana.Runtime.Holding.{run, owner-run, refused_to_others}
use nana.Runtime.Lifecycle.{Advances, execute-Advances}
use nana.Runtime.Rebuild.Same.{SameEngine}
use nana.Runtime.Rebuild.Log.{run-replay_events}
use nana.Runtime.Durable.Held.{Holds, reopened}
use nana.Runtime.Durable.Exec.{exec-Holds}
use nana.Runtime.Counts.{settled-execute}
use nana.Runtime.Readiness.{derive_readiness-run}
use nana.Runtime.Requeue.{requeued_is_stuck}

abbrev payload : String → Option (List (String × String))
payload raw =
    if raw == "acquire w1"
    then some (
        ("command", "AcquireAuthority")
        ∷ ("owner", "w1")
        ∷ ("lease_id", "l1")
        ∷ ("leased_until", "later")
        ∷ [])
    else if raw == "bogus"
    then some (("command", "Bogus") ∷ [])
    else if raw == "no target"
    then some (("command", "QueueDispatch") ∷ ("request_id", "r1") ∷ [])
    else none

abbrev encoded : Value → Option String
encoded null = some "null"
encoded (text t) = some t
encoded (json t) = some t

-- Raw strings stand for themselves.
abbrev plain : Codec
plain = record {
  decode_object = payload;
  decode_text = some;
  decode_any = json;
  encode_any = encoded;
}

abbrev session : List (String × Command)
session =
    ("t1", acquire_lease "w1" "l1" "later")
    ∷ ("t2", acquire_lease "w2" "l2" "later")
    ∷ ("t3", queue "r1" "worker-2" (some "7"))
    ∷ ("t4", notify_dispatch "r1" "tmux")
    ∷ ("t5", deliver_dispatch "r1")
    ∷ ("t6", create_message "m1" "w1" "w2" "hello")
    ∷ ("t7", notify_message "m1")
    ∷ []

abbrev worked : Engine
worked = run plain session new_runtime_engine

session_runs :
    (worked.authority.owner ≡ some "w1")
    × (length worked.pending_events ≡ 6)
    × ((dispatch_backlog worked).delivered_count ≡ 1)
unfolding run execute finish acquire_authority queue_dispatch mark_notified mark_delivered
    create_mailbox_message mark_mailbox_notified find_dispatch store_dispatch find_mailbox
    store_mailbox new_runtime_engine dispatch_backlog kept_metadata
session_runs = (refl, refl, refl)

missing_target :
    (process_raw_command plain "t" "no target" new_runtime_engine).1 ≡ err (missing_field "target")
unfolding process_raw_command decode_raw new_runtime_engine
missing_target = refl

process_error_unchanged_example : (process_raw_command plain "t" "bogus" worked).0 ≡ worked
process_error_unchanged_example =
    process_error_unchanged plain "t" "bogus" worked (unknown_command "Bogus")
      (unfold process_raw_command decode_raw in refl)

owner-run_example : (run plain session worked).authority.owner ≡ some "w1"
owner-run_example = owner-run plain session worked "w1" session_runs.0

refused_to_others_example :
    ((execute plain "t" (acquire_lease "w2" "l2" "later") (run plain session worked)).1
      ≡ err (lease_already_held "w1"))
    × ((execute plain "t" (renew_lease "w2" "l2" "later") (run plain session worked)).1
        ≡ err (owner_mismatch "w1"))
refused_to_others_example =
    refused_to_others plain session worked "w1" "w2" "t" "l2" "later" session_runs.0
      (ground (arith, eq_iff "w1" "w2"))

execute-Advances_example :
    Advances worked.dispatch (execute plain "t8" (queue "r2" "worker-3" none) worked).0.dispatch
execute-Advances_example = execute-Advances plain "t8" (queue "r2" "worker-3" none) worked

abbrev midnight : ℕ → String
midnight n = "00:00"

run-replay_events_example :
    SameEngine plain worked
      (replay_events plain midnight false worked.pending_events new_runtime_engine)
run-replay_events_example = run-replay_events plain session midnight

settled-execute_example :
    let e' = (execute plain "t8" (fail_dispatch "r1" "late") worked).0 in
    ((dispatch_backlog worked).delivered_count ≤ (dispatch_backlog e').delivered_count)
    × ((dispatch_backlog worked).failed_count ≤ (dispatch_backlog e').failed_count)
    × (length worked.dispatch ≤ length e'.dispatch)
settled-execute_example = settled-execute plain "t8" (fail_dispatch "r1" "late") worked

derive_readiness-run_example :
    ((derive_readiness worked).ready ≡ is_some worked.authority.owner)
    × ((derive_readiness worked).reasons
        ≡ (if is_some worked.authority.owner then [] else not_acquired ∷ []))
derive_readiness-run_example = derive_readiness-run plain session

abbrev settled_record : DispatchRecord
settled_record = record {
  request_id = "r1";
  target = "worker-2";
  status = delivered;
  created_at = "t3";
  notified_at = some "t4";
  delivered_at = some "t5";
  failed_at = none;
  reason = some "tmux";
  metadata = some "7";
}

abbrev with_settled : Engine
with_settled = record new_runtime_engine { dispatch = settled_record ∷ [] }

requeued_is_stuck_example :
    let e' = queue_dispatch "t8" "r1" "worker-2" none with_settled in
    (mark_notified "t9" "r1" "tmux" e' ≡ (e', some (invalid_transition "r1" delivered notified)))
    × (mark_delivered "t9" "r1" e' ≡ (e', some (invalid_transition "r1" delivered delivered)))
    × (mark_failed "t9" "r1" "tmux" e' ≡ (e', some (invalid_transition "r1" delivered failed)))
unfolding find_dispatch
requeued_is_stuck_example =
    requeued_is_stuck "t8" "t9" "r1" "worker-2" "tmux" none with_settled settled_record refl refl

abbrev first_disk : StateDir
first_disk = (init "state" no_files).0

first_disk-Holds : Holds first_disk new_runtime_engine []
unfolding init persist write_compatibility_view new_runtime_engine trim_space snapshot
    dispatch_backlog derive_readiness
first_disk-Holds = record {
  snapshot_json = refl;
  events_json = refl;
  authority_json = refl;
  backlog_json = refl;
  readiness_json = refl;
  replay_json = refl;
  dispatch_json = refl;
  mailbox_json = refl;
}

abbrev acquired : Engine
acquired =
    (process_raw_command plain "t" "acquire w1" (reopened "state" false [] new_runtime_engine)).0

abbrev acquired_event : Event
acquired_event =
    ("event", text "AuthorityAcquired")
    ∷ ("owner", text "w1")
    ∷ ("lease_id", text "l1")
    ∷ ("leased_until", text "later")
    ∷ []

exec-Holds_example :
    ((exec plain midnight "t" "state" false "acquire w1" first_disk).1 ≡ event_reply acquired_event)
    × Holds
        (exec plain midnight "t" "state" false "acquire w1" first_disk).0
        acquired
        (acquired_event ∷ [])
exec-Holds_example =
    exec-Holds plain midnight "t" "state" "acquire w1" false first_disk new_runtime_engine []
      (unfold trim_space in refl) first_disk-Holds acquired_event
      (unfold process_raw_command decode_raw execute finish acquire_authority new_runtime_engine in
        refl)

-- The bytes of "[1]" and a line end.
abbrev one_value : List ℕ
one_value = 91 ∷ 49 ∷ 93 ∷ 10 ∷ []

append_position_runs : find_json_array_append_position one_value ≡ some (2, false)
unfolding find_json_array_append_position scan_back scan_chunk read_at runtime_json_whitespace
append_position_runs = refl

find_json_array_append_position-last_bracket_example :
    find_json_array_append_position one_value ≡ last_bracket (backwards one_value)
find_json_array_append_position-last_bracket_example =
    find_json_array_append_position-last_bracket one_value
