-- ===== src/Scheduler/Queues/Sound.antt =====
-- What buildImplementationQueue offers.
use nana.Prelude.{
  ℕ, ℤ, pos, negsuc, String, Bool, true, false, not, ◌&&◌, Option, none, some, List, [], ◌∷◌, ◌==◌,
  decimal, ◌≡◌, inl, inr, refl, sym, ◌∙◌, arith, eq_refl, Bool-cases, and_left, and_right,
}
use nana.Queue.Priority.{Issue}
use nana.Queue.Order.{Options, build_implementation_queue}
use nana.Scheduler.State.{
  TaskKind, implementation, scout_job, WorkState, Task, Coordinator, start_service_task_key,
}
use nana.Scheduler.Select.{implementation_queue}
use nana.Scheduler.Sync.Due.{is_running}
use nana.Scheduler.Queues.Identifiers.{parse_issue_id, parse_scoped_id}
use nana.Scheduler.Queues.Offers.{Listed, with_offer}
use nana.Scheduler.Queues.Implementation.{
  runnable_jobs, scout_job_task, build_scout_job_queue, issue_list, queued_issues, has_issue,
  has_job, issue_task, issue_offer, job_offer, implementation_offer, implementation_offers,
  build_implementation_tasks,
}
use nana.Scheduler.Queues.Members.{
  is_untaken, is_running-is_untaken, has_runnable, has_runnable_job, has_issue-queued,
  has_job-sort_jobs, has_job-runnable, has_runnable_job-idle,
}

-- The work behind a task of the queue, by its kind.
abbrev pub has_work : Options → (String → Option ℕ) → ℕ → Coordinator → TaskKind → Task → Bool
has_work options parse_time now c implementation task =
    has_runnable options parse_time now task.issue_key (WorkState.issues c.state)
    && task.key == start_service_task_key implementation task.issue_key
has_work options parse_time now c scout_job task =
    has_runnable_job parse_time now c task.scout_job_id (WorkState.scout_jobs c.state)
    && task.key == start_service_task_key scout_job task.scout_job_id
has_work options parse_time now c _ task = false

unfoldable pub is_sound : Options → (String → Option ℕ) → ℕ → Coordinator → Task → Bool
is_sound options parse_time now c task =
    task.queue == implementation_queue
    && is_untaken task.key c
    && has_work options parse_time now c task.kind task

unfoldable pub all_sound : Options → (String → Option ℕ) → ℕ → Coordinator → List Task → Bool
all_sound options parse_time now c [] = true
all_sound options parse_time now c (task ∷ tasks) =
    let rest = all_sound options parse_time now c tasks in
    is_sound options parse_time now c task && rest

-- Each task that is offered is sound.
module _ (options : Options) (parse_time : String → Option ℕ) (now : ℕ) (c : Coordinator) where
  offer_sound : Option Task → Bool
  offer_sound none = true
  offer_sound (some task) = is_sound options parse_time now c task

  offer_sound-issue_offer :
      (issues : List Issue) (number : Option ℤ)
      → ((key : String)
          → has_issue key issues ≡ true
          → has_runnable options parse_time now key (WorkState.issues c.state) ≡ true)
      → offer_sound (issue_offer c issues number) ≡ true
  unfolding offer_sound is_sound issue_task
  offer_sound-issue_offer issues none work = refl
  offer_sound-issue_offer issues (some (negsuc n)) work = refl
  offer_sound-issue_offer issues (some (pos n)) work =
      elim (Bool-cases (
        has_issue (decimal n) issues
        && not (is_running (start_service_task_key implementation (decimal n)) c))) [
          | inr e ↦ rw e refl
          | inl e ↦
              rw
                (
                  e,
                  work (decimal n) (and_left (has_issue (decimal n) issues) _ e),
                  eq_refl (start_service_task_key implementation (decimal n)),
                  is_running-is_untaken (start_service_task_key implementation (decimal n)) c
                      (ground (arith, and_right (has_issue (decimal n) issues) _ e)),
                )
                refl
        ]

  offer_sound-job_offer :
      (id : Option String)
      → offer_sound (job_offer (build_scout_job_queue parse_time now c) id) ≡ true
  unfolding offer_sound is_sound scout_job_task build_scout_job_queue
  offer_sound-job_offer none = refl
  offer_sound-job_offer (some id) =
      elim (Bool-cases (has_job id (build_scout_job_queue parse_time now c))) [
        | inr e ↦ rw e refl
        | inl e ↦
            let jobs = WorkState.scout_jobs c.state in
            let work =
              has_job-runnable parse_time now c id jobs
                (sym (has_job-sort_jobs id (runnable_jobs parse_time now c jobs)) ∙ e) in
            rw
              (
                e,
                work,
                has_runnable_job-idle parse_time now c id jobs work,
                eq_refl (start_service_task_key scout_job id),
              )
              refl
      ]

  with_offer-all_sound :
      (offer : Option Task) (tasks : List Task)
      → offer_sound offer ≡ true
      → all_sound options parse_time now c tasks ≡ true
      → all_sound options parse_time now c (with_offer offer tasks) ≡ true
  unfolding all_sound offer_sound
  with_offer-all_sound none tasks o t = t
  with_offer-all_sound (some task) tasks o t = rw (o, t) refl

  implementation_offers-all_sound :
      (open_prs : ℕ) (items : List Listed)
      → let issues = queued_issues (
          build_implementation_queue options open_prs now
            (issue_list parse_time (WorkState.issues c.state))) in
        all_sound options parse_time now c
          (implementation_offers c issues (build_scout_job_queue parse_time now c) items)
        ≡ true
  unfolding implementation_offers implementation_offer all_sound offer_sound
  implementation_offers-all_sound open_prs [] = refl
  implementation_offers-all_sound open_prs (item ∷ items) =
      with_offer-all_sound _ _
        (elim (Bool-cases (item.kind == "issue")) [
          | inl e ↦ rw e (
              offer_sound-issue_offer _ (parse_issue_id item.id) (λ key h.
                has_issue-queued options parse_time open_prs now key (WorkState.issues c.state) h))
          | inr e ↦ elim (Bool-cases (item.kind == "scout_job")) [
            | inl j ↦ rw (e, j) (offer_sound-job_offer (parse_scoped_id "scout-job:" item.id))
            | inr j ↦ rw (e, j) refl
          ]
        ])
        (implementation_offers-all_sound open_prs items)

-- Whatever the database lists, a task of the implementation queue is in no worker's hands, and is that
-- of an issue of the state that is queued and open, with a fork issue, a type of work and a fresh
-- priority, allowed by the mode and not scheduled for later, or of a local scout job that is queued,
-- with a type of work and no pause ahead.
pub build_implementation_tasks-all_sound :
    (options : Options) (open_prs : ℕ) (parse_time : String → Option ℕ) (now : ℕ)
    (items : Option (List Listed)) (c : Coordinator)
    → all_sound options parse_time now c
        (build_implementation_tasks options open_prs parse_time now items c)
      ≡ true
unfolding build_implementation_tasks all_sound
build_implementation_tasks-all_sound options open_prs parse_time now none c = refl
build_implementation_tasks-all_sound options open_prs parse_time now (some items) c =
    implementation_offers-all_sound options parse_time now c open_prs items
