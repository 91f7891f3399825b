-- ===== src/Scheduler/Queues/Implementation.antt =====
-- internal/gocli/start_scheduler.go: buildImplementationQueue and buildScoutJobQueue, with scoutJobPausePending.
-- The reason for which an implementation queue is empty is that of startWorkBuildImplementationQueue
-- (Queue.Order). A sort is taken as an insertion sort by its comparison.
use nana.Prelude.{
  ℕ, ℤ, pos, String, Bool, false, not, ◌&&◌, ◌||◌, Option, none, some, List, [], ◌∷◌, ◌==◌,
  if◌then◌else◌, decimal, trim_space,
}
use Prim.Native.String.{compare}
use text.Mathlib.Text.{is_le}
use nana.Queue.Priority.{Issue}
use nana.Queue.Order.{Options, Queue, queued, build_implementation_queue}
use nana.Scheduler.State.{
  implementation, scout_job, IssueState, ScoutJob, WorkState, Task, Coordinator,
  start_service_task_key,
}
use nana.Scheduler.Select.{implementation_queue}
use nana.Scheduler.Sync.Due.{is_running, as_issue}
use nana.Scheduler.Queues.Identifiers.{parse_scoped_id, parse_issue_id}
use nana.Scheduler.Queues.Offers.{Listed, is_still_ahead, with_offer}

-- buildScoutJobQueue.
unfoldable pub is_job_runnable : (String → Option ℕ) → ℕ → Coordinator → String → ScoutJob → Bool
is_job_runnable parse_time now c id job =
    job.status == "queued"
    && job.destination == "local"
    && not (trim_space job.work_type == "")
    && not (is_still_ahead parse_time now job.pause_until)
    && not (is_running (start_service_task_key scout_job id) c)

unfoldable pub runnable_jobs :
    (String → Option ℕ) → ℕ → Coordinator → List (String × ScoutJob) → List (String × ScoutJob)
runnable_jobs parse_time now c [] = []
runnable_jobs parse_time now c ((id, job) ∷ jobs) =
    let rest = runnable_jobs parse_time now c jobs in
    if is_job_runnable parse_time now c id job then (id, job) ∷ rest else rest

unfoldable pub scout_job_task : String → Task
scout_job_task id = record {
  key = start_service_task_key scout_job id;
  queue = implementation_queue;
  kind = scout_job;
  issue_key = "";
  scout_job_id = id;
  planned_item_id = "";
  scout_role = "";
  run_id = "";
}

-- The comparison of two jobs is not positive.
abbrev pub job_at_most : ScoutJob → ScoutJob → Bool
job_at_most a b =
    if not (a.updated_at == b.updated_at)
    then is_le (compare a.updated_at b.updated_at)
    else if not (a.artifact_path == b.artifact_path)
    then is_le (compare a.artifact_path b.artifact_path)
    else is_le (compare a.title b.title)

unfoldable pub insert_job :
    (String × ScoutJob) → List (String × ScoutJob) → List (String × ScoutJob)
insert_job a [] = a ∷ []
insert_job a (b ∷ bs) =
    let rest = insert_job a bs in if job_at_most a.1 b.1 then a ∷ b ∷ bs else b ∷ rest

unfoldable pub sort_jobs : List (String × ScoutJob) → List (String × ScoutJob)
sort_jobs [] = []
sort_jobs (a ∷ jobs) = insert_job a (sort_jobs jobs)

unfoldable pub job_tasks : List (String × ScoutJob) → List Task
job_tasks [] = []
job_tasks ((id, job) ∷ jobs) = scout_job_task id ∷ job_tasks jobs

unfoldable pub build_scout_job_queue : (String → Option ℕ) → ℕ → Coordinator → List Task
build_scout_job_queue parse_time now c =
    job_tasks (sort_jobs (runnable_jobs parse_time now c (WorkState.scout_jobs c.state)))

-- The issues of the state, as startWorkBuildImplementationQueue reads them.
abbrev pub issue_list : (String → Option ℕ) → List (String × IssueState) → List Issue
issue_list parse_time [] = []
issue_list parse_time ((key, issue) ∷ issues) =
    as_issue parse_time issue ∷ issue_list parse_time issues

abbrev pub queued_issues : Queue → List Issue
queued_issues (queued issues) = issues
queued_issues _ = []

-- Whether the maps runnableIssues and runnableScoutJobs have a key.
unfoldable pub has_issue : String → List Issue → Bool
has_issue key [] = false
has_issue key (issue ∷ issues) =
    let rest = has_issue key issues in decimal issue.source_number == key || rest

unfoldable pub has_job : String → List Task → Bool
has_job id [] = false
has_job id (task ∷ tasks) = let rest = has_job id tasks in task.scout_job_id == id || rest

unfoldable pub issue_task : String → Task
issue_task key = record {
  key = start_service_task_key implementation key;
  queue = implementation_queue;
  kind = implementation;
  issue_key = key;
  scout_job_id = "";
  planned_item_id = "";
  scout_role = "";
  run_id = "";
}

-- An issue's key is its number; no runnable issue has a negative one.
abbrev pub issue_offer : Coordinator → List Issue → Option ℤ → Option Task
issue_offer c issues (some (pos number)) =
    if has_issue (decimal number) issues
      && not (is_running (start_service_task_key implementation (decimal number)) c)
    then some (issue_task (decimal number))
    else none
issue_offer c issues _ = none

abbrev pub job_offer : List Task → Option String → Option Task
job_offer jobs none = none
job_offer jobs (some id) = if has_job id jobs then some (scout_job_task id) else none

unfoldable pub implementation_offer : Coordinator → List Issue → List Task → Listed → Option Task
implementation_offer c issues jobs item =
    if item.kind == "issue"
    then issue_offer c issues (parse_issue_id item.id)
    else if item.kind == "scout_job"
    then job_offer jobs (parse_scoped_id "scout-job:" item.id)
    else none

unfoldable pub implementation_offers :
    Coordinator → List Issue → List Task → List Listed → List Task
implementation_offers c issues jobs [] = []
implementation_offers c issues jobs (item ∷ items) =
    with_offer (implementation_offer c issues jobs item) (implementation_offers c issues jobs items)

abbrev pub offers_of : Coordinator → List Issue → List Task → Option (List Listed) → List Task
offers_of c issues jobs none = []
offers_of c issues jobs (some items) = implementation_offers c issues jobs items

unfoldable pub build_implementation_tasks :
    Options → ℕ → (String → Option ℕ) → ℕ → Option (List Listed) → Coordinator → List Task
build_implementation_tasks options open_prs parse_time now items c =
    let issues = queued_issues (
      build_implementation_queue options open_prs now
        (issue_list parse_time (WorkState.issues c.state))) in
    offers_of c issues (build_scout_job_queue parse_time now c) items
