-- ===== src/Scheduler/Sync/Reset.antt =====
-- internal/gocli/start_scheduler.go: the loop of syncServiceTasks over the stored tasks, with
-- startTriageRecoveryOwnerID (internal/gocli/managed_prompt_recovery.go).
use Prim.Native.String.{◌++◌}
use nana.Prelude.{
  String, Bool, true, false, not, ◌&&◌, List, [], ◌∷◌, ◌==◌, if◌then◌else◌, delete, member,
  trim_space,
}
use nana.Scheduler.State.{
  TaskKind, scout, triage, planned_launch, IssueState, ServiceTask, WorkState, Coordinator,
  put_task, put_issue, task_at, issue_at,
}

-- The test `kind == …` of a task's kind.
abbrev pub is_triage : TaskKind → Bool
is_triage triage = true
is_triage _ = false

abbrev pub is_scout : TaskKind → Bool
is_scout scout = true
is_scout _ = false

abbrev pub is_planned_launch : TaskKind → Bool
is_planned_launch planned_launch = true
is_planned_launch _ = false

unfoldable pub start_triage_recovery_owner_id : String → String → String
start_triage_recovery_owner_id repo_slug issue_key =
    trim_space repo_slug ++ ":" ++ trim_space issue_key

-- The loop over the stored tasks, whose turn for a task changes no other.
abbrev pub requeued_task : String → ServiceTask → ServiceTask
requeued_task now task = record task { status = "queued"; started_at = ""; updated_at = now }

abbrev pub rested_task : String → String → ServiceTask → ServiceTask
rested_task now cycle_id task = record task {
  status = "completed";
  result_summary = "schedule_wait";
  wait_cycle = "";
  wait_until = "";
  started_at = "";
  completed_at = now;
  updated_at = now;
  generation = cycle_id;
}

abbrev pub untriaged : String → IssueState → IssueState
untriaged now issue = record issue {
  triage_status = "queued";
  triage_updated_at = now;
  updated_at = now;
}

-- A triage whose prompt is being recovered.
unfoldable pub is_recovering : List String → String → ServiceTask → Bool
is_recovering active repo_slug task =
    is_triage task.kind && member (start_triage_recovery_owner_id repo_slug task.issue_key) active

unfoldable pub requeue_running : String → String → ServiceTask → Coordinator → Coordinator
requeue_running now key task c =
    let stored = put_task key (requeued_task now task) c in
    if is_triage task.kind && not (task.issue_key == "")
    then put_issue task.issue_key (untriaged now (issue_at task.issue_key stored.state)) stored
    else stored

unfoldable pub rest_scout : String → String → Coordinator → Coordinator
rest_scout now key c =
    let task = task_at key c.state in
    if is_scout task.kind && task.status == "queued" && not (member task.scout_role c.scout_roles)
    then put_task key (rested_task now c.cycle_id task) c
    else c

unfoldable pub drop_task : String → Coordinator → Coordinator
drop_task key c = record c { state = record s { service_tasks = delete key s.service_tasks } }
  where
    s : WorkState
    s = c.state

unfoldable pub reset_task : List String → String → String → Coordinator → Coordinator
reset_task active now key c =
    let task = task_at key c.state in
    if is_planned_launch task.kind
    then drop_task key c
    else if task.status == "running"
    then (if is_recovering active c.repo_slug task
        then c
        else rest_scout now key (requeue_running now key task c))
    else rest_scout now key c

unfoldable pub reset_tasks : List String → String → List String → Coordinator → Coordinator
reset_tasks active now [] c = c
reset_tasks active now (key ∷ keys) c = reset_tasks active now keys (reset_task active now key c)
