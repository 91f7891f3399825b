-- ===== src/Scheduler/State/Records.antt =====
-- The records of the state (internal/gocli/start_work.go and start_scheduler.go).
use nana.Prelude.{ℕ, ℤ, String, Bool, List}
use Prim.Native.String.{◌++◌}

-- The constants startTaskKind…; `other` is any other text.
pub data TaskKind : Type 0 where
  issue_sync scout triage implementation scout_job reconcile planned_launch : TaskKind
  other : String → TaskKind

abbrev pub kind_text : TaskKind → String
kind_text issue_sync = "issue-sync"
kind_text scout = "scout"
kind_text triage = "triage"
kind_text implementation = "implementation"
kind_text scout_job = "scout-job"
kind_text reconcile = "reconcile"
kind_text planned_launch = "planned-launch"
kind_text (other t) = t

unfoldable pub start_service_task_key : TaskKind → String → String
start_service_task_key kind target = kind_text kind ++ ":" ++ target

unfoldable pub service_task_retry_limit : TaskKind → ℕ
service_task_retry_limit scout = 2
service_task_retry_limit _ = 3

pub record IssueState : Type 0 where
  pub source_number : ℕ
  pub fork_number : ℕ
  pub work_type : String
  pub state : String
  pub labels : List String
  pub source_fingerprint : String
  pub priority : ℕ
  pub priority_source : String
  pub complexity : ℕ
  pub status : String
  pub triage_status : String
  pub triage_rationale : String
  pub triage_fingerprint : String
  pub triage_updated_at : String
  pub triage_error : String
  pub last_run_id : String
  pub last_run_updated_at : String
  pub last_run_error : String
  pub published_pr_number : ℕ
  pub published_pr_url : String
  pub publication_state : String
  pub blocked_reason : String
  pub manual_priority : ℤ
  pub manual_priority_updated_at : String
  pub schedule_at : String
  pub schedule_updated_at : String
  pub deferred_reason : String
  pub updated_at : String

pub record ServiceTask : Type 0 where
  pub id : String
  pub kind : TaskKind
  pub queue : String
  pub status : String
  pub issue_key : String
  pub planned_item_id : String
  pub scout_role : String
  pub generation : String
  pub fingerprint : String
  pub run_id : String
  pub dependency_keys : List String
  pub attempts : ℕ
  pub last_error : String
  pub result_summary : String
  pub wait_cycle : String
  pub wait_until : String
  pub started_at : String
  pub completed_at : String
  pub updated_at : String

pub record PlannedItem : Type 0 where
  pub id : String
  pub title : String
  pub description : String
  pub priority : ℕ
  pub state : String
  pub schedule_at : String
  pub deferred_reason : String
  pub launch_run_id : String
  pub launch_issue_url : String
  pub launch_issue_number : ℕ
  pub launch_result : String
  pub last_error : String
  pub updated_at : String

pub record ScoutJob : Type 0 where
  pub title : String
  pub artifact_path : String
  pub work_type : String
  pub destination : String
  pub status : String
  pub run_id : String
  pub attempts : ℕ
  pub last_error : String
  pub pause_until : String
  pub pause_reason : String
  pub recovery_count : ℕ
  pub last_recovery_reason : String
  pub last_recovery_at : String
  pub last_recovered_run_id : String
  pub updated_at : String
  pub legacy_planned_item_id : String
  pub deleted_from_status : String
  pub deleted_at : String

pub record WorkState : Type 0 where
  pub issues : List (String × IssueState)
  pub service_tasks : List (String × ServiceTask)
  pub planned_items : List (String × PlannedItem)
  pub scout_jobs : List (String × ScoutJob)

-- startRepoTask, without the copies of the issue, job and item that its worker is handed.
pub record Task : Type 0 where
  pub key : String
  pub queue : String
  pub kind : TaskKind
  pub issue_key : String
  pub scout_job_id : String
  pub planned_item_id : String
  pub scout_role : String
  pub run_id : String

pub record Coordinator : Type 0 where
  pub repo_slug : String
  pub cycle_id : String
  pub state : WorkState
  pub running : List (String × Task)
  pub scout_roles : List String
  pub next_queue : String
  pub refresh_state : Bool
  pub started_issue_numbers : List ℕ
  pub service_started_count : ℕ
  pub impl_started_count : ℕ
