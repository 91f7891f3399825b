-- ===== src/Scheduler/Sync/Due.antt =====
-- internal/gocli/start_scheduler.go: what syncServiceTasks queues, with shouldQueueTriage,
-- shouldQueueReconcile and compareStartIssueKeys.
use Prim.Native.String.{compare}
use text.Mathlib.Text.{is_le}
use nana.Prelude.{
  ℕ, ℤ, pos, String, Bool, false, not, ◌&&◌, ◌||◌, Option, none, some, List, [], ◌∷◌, map, ltb,
  ◌==◌, if◌then◌else◌, lookup, atoi, int_at_most, trim_space,
}
use nana.Queue.Priority.{Issue, has_fresh_priority}
use nana.Queue.Order.{automation_allows_issue}
use nana.Scheduler.State.{
  issue_sync, scout, triage, implementation, reconcile, IssueState, ServiceTask, WorkState,
  Coordinator, issue_at, zero_task, start_service_task_key,
}
use nana.Scheduler.Service.{upsert_service_task, triage_dependency_keys}

-- c.running[key].Key != "".
unfoldable pub is_running : String → Coordinator → Bool
is_running key c = elim (lookup key c.running) [ none ↦ false | some task ↦ not (task.key == "") ]

-- The issue as the implementation queue reads it, with the time that a text parses to.
unfoldable pub as_issue : (String → Option ℕ) → IssueState → Issue
as_issue parse_time i = record {
  source_number = i.source_number;
  fork_number = i.fork_number;
  state = i.state;
  labels = i.labels;
  work_type = i.work_type;
  source_fingerprint = i.source_fingerprint;
  priority = pos i.priority;
  manual_priority = i.manual_priority;
  manual_priority_updated_at = i.manual_priority_updated_at;
  priority_source = i.priority_source;
  complexity = i.complexity;
  status = i.status;
  triage_status = i.triage_status;
  triage_rationale = i.triage_rationale;
  triage_fingerprint = i.triage_fingerprint;
  triage_updated_at = i.triage_updated_at;
  triage_error = i.triage_error;
  schedule_at = parse_time i.schedule_at;
}

unfoldable pub should_queue_triage : String → String → IssueState → Coordinator → Bool
should_queue_triage implement_mode key issue c =
    issue.state == "open"
    && ltb 0 issue.fork_number
    && not (trim_space issue.priority_source == "manual_label")
    && not (issue.status == "completed" || issue.status == "not_actioned")
    && automation_allows_issue implement_mode issue.labels
    && not (is_running (start_service_task_key implementation key) c)
    && not (has_fresh_priority (as_issue (λ t. none) issue))

unfoldable pub should_queue_reconcile : String → IssueState → Coordinator → Bool
should_queue_reconcile key issue c =
    issue.status == "reconciling"
    || (issue.status == "in_progress"
        && not (is_running (start_service_task_key implementation key) c))

-- The tasks that are due.
unfoldable pub scout_keys : List String → List String
scout_keys roles = map (start_service_task_key scout) roles

unfoldable pub scout_desired : String → String → ServiceTask
scout_desired cycle_id role = record zero_task {
  id = start_service_task_key scout role;
  kind = scout;
  queue = "service";
  status = "queued";
  scout_role = role;
  generation = cycle_id;
}

unfoldable pub sync_desired : String → List String → ServiceTask
sync_desired cycle_id roles = record zero_task {
  id = start_service_task_key issue_sync cycle_id;
  kind = issue_sync;
  queue = "service";
  status = "queued";
  generation = cycle_id;
  dependency_keys = scout_keys roles;
}

unfoldable pub triage_desired : String → String → IssueState → WorkState → ServiceTask
triage_desired cycle_id key issue state = record zero_task {
  id = start_service_task_key triage key;
  kind = triage;
  queue = "service";
  status = "queued";
  issue_key = key;
  fingerprint = issue.source_fingerprint;
  dependency_keys = triage_dependency_keys (start_service_task_key issue_sync cycle_id) state;
}

unfoldable pub reconcile_desired : String → IssueState → ServiceTask
reconcile_desired key issue = record zero_task {
  id = start_service_task_key reconcile key;
  kind = reconcile;
  queue = "service";
  status = "queued";
  issue_key = key;
  fingerprint = issue.source_fingerprint;
  run_id = trim_space issue.last_run_id;
}

unfoldable pub upsert_scouts : String → List String → Coordinator → Coordinator
upsert_scouts now [] c = c
upsert_scouts now (role ∷ roles) c =
    upsert_scouts now roles (upsert_service_task (scout_desired c.cycle_id role) now c).0

unfoldable pub upsert_sync : String → Coordinator → Coordinator
upsert_sync now c = elim c.scout_roles [
  | [] ↦ c
  | role ∷ roles ↦ (upsert_service_task (sync_desired c.cycle_id (role ∷ roles)) now c).0
]

unfoldable pub upsert_triage : String → String → String → Coordinator → Coordinator
upsert_triage implement_mode now key c =
    let issue = issue_at key c.state in
    if should_queue_triage implement_mode key issue c
    then (upsert_service_task (triage_desired c.cycle_id key issue c.state) now c).0
    else c

unfoldable pub upsert_reconcile : String → String → Coordinator → Coordinator
upsert_reconcile now key c =
    let issue = issue_at key c.state in
    if should_queue_reconcile key issue c
    then (upsert_service_task (reconcile_desired key issue) now c).0
    else c

unfoldable pub upsert_issues : String → String → List String → Coordinator → Coordinator
upsert_issues implement_mode now [] c = c
upsert_issues implement_mode now (key ∷ keys) c =
    upsert_issues implement_mode now keys
      (upsert_reconcile now key (upsert_triage implement_mode now key c))

-- compareStartIssueKeys is not positive: numbers by their values, else an empty key first, else by the
-- text. The difference of two numbers is taken to fit an int.
abbrev text_at_most : String → String → Bool
text_at_most a b = a == "" || (not (b == "") && is_le (compare a b))

abbrev number_at_most : Option ℤ → Option ℤ → Bool → Bool
number_at_most (some m) (some n) otherwise = int_at_most m n
number_at_most none n otherwise = otherwise
number_at_most m none otherwise = otherwise

unfoldable pub key_at_most : String → String → Bool
key_at_most a b = number_at_most (atoi a) (atoi b) (text_at_most a b)

unfoldable pub insert_key : String → List String → List String
insert_key a [] = a ∷ []
insert_key a (b ∷ bs) =
    let rest = insert_key a bs in if key_at_most a b then a ∷ b ∷ bs else b ∷ rest

unfoldable pub sort_keys : List String → List String
sort_keys [] = []
sort_keys (a ∷ keys) = insert_key a (sort_keys keys)
