-- ===== src/Scheduler/State/Results.antt =====
-- What a worker returns, with codexPauseInfoMessage (internal/gocli/codex_rate_limit.go), and the
-- errors that applyTaskResult returns.
use nana.Prelude.{
  default_string, ℕ, String, Bool, Option, none, some, ◌==◌, if◌then◌else◌, trim_space,
}
use Prim.Native.String.{◌++◌}
use nana.Scheduler.State.Records.{TaskKind, Task, Coordinator}

-- codexRateLimitPauseInfo, and the errors of a worker: a rate limit pause, or another by its text.
pub record PauseInfo : Type 0 where
  pub reason : String
  pub retry_after : String
  pub switched_to : String

pub data TaskError : Type 0 where
  paused : PauseInfo → TaskError
  failure : String → TaskError

-- codexPauseInfoMessage
unfoldable pub codex_pause_info_message : PauseInfo → String
unfolding default_string
codex_pause_info_message info =
    default_string (trim_space info.reason) "rate limited"
    ++ (if trim_space info.switched_to == ""
        then ""
        else " switched_to=" ++ trim_space info.switched_to)
    ++ (if trim_space info.retry_after == ""
        then ""
        else " retry_after=" ++ trim_space info.retry_after)

-- The method Error of the two.
unfoldable pub error_text : TaskError → String
unfolding default_string
error_text (failure t) = t
error_text (paused info) =
    default_string (trim_space info.reason) "rate limited"
    ++ (if trim_space info.retry_after == ""
        then ""
        else " retry after " ++ trim_space info.retry_after)

pub record TriageResult : Type 0 where
  pub priority : ℕ
  pub rationale : String

pub record ReconcileResult : Type 0 where
  pub status : String
  pub blocked_reason : String
  pub run_id : String
  pub published_pr_number : ℕ
  pub published_pr_url : String
  pub publication_state : String
  pub should_retry : Bool

pub record PlannedLaunchResult : Type 0 where
  pub status : String
  pub result : String
  pub run_id : String
  pub issue_number : ℕ
  pub issue_url : String

-- startRepoTaskResult; `launch` is the run id of startWorkLaunchResult.
pub record TaskResult : Type 0 where
  pub task : Task
  pub triage : Option TriageResult
  pub reconcile : Option ReconcileResult
  pub launch : Option String
  pub planned_launch : Option PlannedLaunchResult
  pub error : Option TaskError

-- What applyTaskResult can return, and the panic of a nil pointer.
pub data StepError : Type 0 where
  write_failed : String → StepError
  task_failed : String → TaskError → StepError
  unknown_kind : TaskKind → StepError
  triage_task_missing triage_issue_missing : String → StepError
  triage_result_missing nil_pointer : StepError

-- What writeStartWorkStateUnlocked returns is an argument, `none` for no error; then what the caller
-- returns behind a write that succeeds.
unfoldable pub written :
    Option String → Coordinator → Option StepError → Coordinator × Option StepError
written none c next = (c, next)
written (some e) c next = (c, some (write_failed e))
