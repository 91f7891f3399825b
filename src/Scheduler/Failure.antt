-- ===== src/Scheduler/Failure.antt =====
-- internal/gocli/start_scheduler.go: handleServiceTaskFailure.
use nana.Prelude.{String, Option, none, some, ltb, if◌then◌else◌, trim_space}
use nana.Scheduler.State.{
  ServiceTask, Coordinator, TaskError, paused, failure, PauseInfo, StepError, task_failed, written,
  put_task, codex_pause_info_message, error_text, service_task_retry_limit,
}

abbrev pub paused_task : String → PauseInfo → ServiceTask → ServiceTask
paused_task now info task = record task {
  status = "queued";
  last_error = codex_pause_info_message info;
  result_summary = "paused_rate_limit";
  wait_cycle = "";
  wait_until = trim_space info.retry_after;
  started_at = "";
  completed_at = "";
  updated_at = now;
}

abbrev pub retried_task : String → TaskError → ServiceTask → ServiceTask
retried_task now error task = record task {
  status = "queued";
  last_error = error_text error;
  result_summary = "retrying";
  wait_cycle = "";
  wait_until = "";
  started_at = "";
  updated_at = now;
}

abbrev pub failed_task : String → TaskError → ServiceTask → ServiceTask
failed_task now error task = record task {
  status = "failed";
  last_error = error_text error;
  wait_cycle = "";
  wait_until = "";
  completed_at = now;
  updated_at = now;
}

unfoldable pub handle_service_task_failure :
    Option String → String → ServiceTask → TaskError → Coordinator → Coordinator × Option StepError
unfolding written
handle_service_task_failure write now task (paused info) c =
    written write (put_task task.id (paused_task now info task) c) none
handle_service_task_failure write now task (failure t) c =
    if ltb task.attempts (service_task_retry_limit task.kind)
    then written write (put_task task.id (retried_task now (failure t) task) c) none
    else written write (put_task task.id (failed_task now (failure t) task) c)
        (some (task_failed task.id (failure t)))
