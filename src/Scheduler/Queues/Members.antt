-- ===== src/Scheduler/Queues/Members.antt =====
-- The issues and the jobs that a queue has are those of the state that can be run.
use nana.Prelude.{
  ℕ, String, Bool, true, false, not, ◌&&◌, ◌||◌, Option, none, some, trim_space, lookup, List, [],
  ◌∷◌, ◌==◌, leb, ltb, decimal, ◌≡◌, inl, inr, refl, sym, ap, ◌∙◌, arith, eq_iff, Bool-cases,
  and_left, and_right,
}
use nana.Queue.Priority.{Issue}
use nana.Queue.Wanted.{is_wanted, is_runnable-is_wanted}
use nana.Queue.Order.{Options, runnable, insert, sort_issues, as_queue, build_implementation_queue}
use nana.Scheduler.State.{
  scout_job, IssueState, ScoutJob, Task, Coordinator, start_service_task_key,
}
use nana.Scheduler.Sync.Due.{is_running, as_issue}
use nana.Scheduler.Queues.Offers.{is_still_ahead}
use nana.Scheduler.Queues.Implementation.{
  is_job_runnable, job_at_most, runnable_jobs, scout_job_task, insert_job, sort_jobs, job_tasks,
  issue_list, queued_issues, has_issue, has_job,
}

-- One of the issues has the number, and can be run.
unfoldable pub has_runnable :
    Options → (String → Option ℕ) → ℕ → String → List (String × IssueState) → Bool
has_runnable options parse_time now key [] = false
has_runnable options parse_time now key ((k, issue) ∷ issues) =
    let rest = has_runnable options parse_time now key issues in
    (decimal issue.source_number == key && is_wanted options now (as_issue parse_time issue))
    || rest

abbrev is_past : ℕ → Option ℕ → Bool
is_past now none = true
is_past now (some time) = leb time now

-- No worker has a task under the key.
unfoldable pub is_untaken : String → Coordinator → Bool
is_untaken key c = elim (lookup key c.running) [ none ↦ true | some task ↦ task.key == "" ]

-- A local job that is queued, has a type of work, and whose pause is over, if it has one.
unfoldable pub is_job_wanted : (String → Option ℕ) → ℕ → ScoutJob → Bool
is_job_wanted parse_time now job =
    is_past now (parse_time job.pause_until)
    && not (trim_space job.work_type == "")
    && job.destination == "local"
    && job.status == "queued"

not_running : (key : String) (c : Coordinator) → not (is_running key c) ≡ is_untaken key c
unfolding is_running is_untaken
not_running key c = by_task (lookup key c.running)
  where
    by_task :
        (o : Option Task)
        → not (elim o as (λ x. Bool) [ none ↦ false | some task ↦ not (task.key == "") ])
          ≡ elim o as (λ x. Bool) [ none ↦ true | some task ↦ task.key == "" ]
    by_task none = refl
    by_task (some task) = ground arith

not_ahead :
    (parse_time : String → Option ℕ) (now : ℕ) (text : String)
    → not (is_still_ahead parse_time now text) ≡ is_past now (parse_time text)
unfolding is_still_ahead
not_ahead parse_time now text = by_time (parse_time text)
  where
    by_time :
        (o : Option ℕ)
        → not (elim o as (λ x. Bool) [ none ↦ false | some t ↦ ltb now t ]) ≡ is_past now o
    by_time none = refl
    by_time (some t) = ground arith

pub is_running-is_untaken :
    (key : String) (c : Coordinator) → is_running key c ≡ false → is_untaken key c ≡ true
is_running-is_untaken key c h = sym (not_running key c) ∙ ap not h

is_job_runnable-is_job_wanted :
    (parse_time : String → Option ℕ) (now : ℕ) (c : Coordinator) (id : String) (job : ScoutJob)
    → is_job_runnable parse_time now c id job
      ≡ (is_job_wanted parse_time now job && is_untaken (start_service_task_key scout_job id) c)
unfolding is_job_runnable is_job_wanted
is_job_runnable-is_job_wanted parse_time now c id job =
    rw
      (
        not_ahead parse_time now job.pause_until,
        not_running (start_service_task_key scout_job id) c,
      )
      (ground arith)

-- One of the jobs has the identifier, and can be run.
unfoldable pub has_runnable_job :
    (String → Option ℕ) → ℕ → Coordinator → String → List (String × ScoutJob) → Bool
has_runnable_job parse_time now c id [] = false
has_runnable_job parse_time now c id ((k, job) ∷ jobs) =
    let rest = has_runnable_job parse_time now c id jobs in
    (k == id
      && (is_job_wanted parse_time now job && is_untaken (start_service_task_key scout_job k) c))
    || rest

-- Sorting keeps the members of a queue.
has_issue-insert :
    (key : String) (a : Issue) (issues : List Issue)
    → has_issue key (insert a issues) ≡ has_issue key (a ∷ issues)
unfolding has_issue insert
has_issue-insert key a [] = refl
has_issue-insert key a (b ∷ bs) = ground (arith, has_issue-insert key a bs)

has_issue-sort_issues :
    (key : String) (issues : List Issue) → has_issue key (sort_issues issues) ≡ has_issue key issues
unfolding has_issue sort_issues
has_issue-sort_issues key [] = refl
has_issue-sort_issues key (a ∷ issues) =
    ground (arith, has_issue-insert key a (sort_issues issues), has_issue-sort_issues key issues)

has_issue-runnable :
    (options : Options) (parse_time : String → Option ℕ) (now : ℕ) (key : String)
    (issues : List (String × IssueState))
    → has_issue key (runnable options now (issue_list parse_time issues)) ≡ true
    → has_runnable options parse_time now key issues ≡ true
unfolding has_issue runnable has_runnable as_issue
has_issue-runnable options parse_time now key [] h = h
has_issue-runnable options parse_time now key ((k, issue) ∷ issues) h =
    rw (← (is_runnable-is_wanted options now (as_issue parse_time issue)))
      (ground (arith, h, has_issue-runnable options parse_time now key issues))

has_issue-as_queue :
    (key : String) (issues : List Issue)
    → has_issue key (queued_issues (as_queue issues)) ≡ true
    → has_issue key issues ≡ true
unfolding has_issue
has_issue-as_queue key [] h = h
has_issue-as_queue key (a ∷ issues) h = sym (has_issue-sort_issues key (a ∷ issues)) ∙ h

pub has_issue-queued :
    (options : Options) (parse_time : String → Option ℕ) (open_prs now : ℕ) (key : String)
    (issues : List (String × IssueState))
    → has_issue key (
        queued_issues
          (build_implementation_queue options open_prs now (issue_list parse_time issues)))
      ≡ true
    → has_runnable options parse_time now key issues ≡ true
unfolding build_implementation_queue has_issue
has_issue-queued options parse_time open_prs now key issues h =
    elim (Bool-cases (options.implement_mode == "manual")) [
      | inl m ↦ absurd (ground (arith, rw m at h))
      | inr m ↦ elim (Bool-cases (leb options.max_open_pr open_prs)) [
        | inl p ↦ absurd (ground (arith, rw (m, p) at h))
        | inr p ↦
            has_issue-runnable options parse_time now key issues
              (has_issue-as_queue key _ (rw (m, p) at h))
      ]
    ]

or_swap : (a b c : Bool) → (a || (b || c)) ≡ (b || (a || c))
or_swap a b c = ground arith

has_job-insert_job :
    (id : String) (a : String × ScoutJob) (jobs : List (String × ScoutJob))
    → has_job id (job_tasks (insert_job a jobs)) ≡ has_job id (job_tasks (a ∷ jobs))
unfolding has_job insert_job job_tasks
has_job-insert_job id a [] = refl
has_job-insert_job id a (b ∷ bs) = elim (Bool-cases (job_at_most a.1 b.1)) [
  | inl e ↦ rw e refl
  | inr e ↦
      rw (e, has_job-insert_job id a bs)
        (or_swap (Task.scout_job_id (scout_job_task b.0) == id)
          (Task.scout_job_id (scout_job_task a.0) == id) _)
]

pub has_job-sort_jobs :
    (id : String) (jobs : List (String × ScoutJob))
    → has_job id (job_tasks (sort_jobs jobs)) ≡ has_job id (job_tasks jobs)
unfolding has_job sort_jobs job_tasks
has_job-sort_jobs id [] = refl
has_job-sort_jobs id (a ∷ jobs) =
    has_job-insert_job id a (sort_jobs jobs)
    ∙ ap (λ b. (Task.scout_job_id (scout_job_task a.0) == id) || b) (has_job-sort_jobs id jobs)

pub has_job-runnable :
    (parse_time : String → Option ℕ) (now : ℕ) (c : Coordinator) (id : String)
    (jobs : List (String × ScoutJob))
    → has_job id (job_tasks (runnable_jobs parse_time now c jobs)) ≡ true
    → has_runnable_job parse_time now c id jobs ≡ true
unfolding has_job runnable_jobs has_runnable_job job_tasks scout_job_task
has_job-runnable parse_time now c id [] h = h
has_job-runnable parse_time now c id ((k, job) ∷ jobs) h =
    rw (← (is_job_runnable-is_job_wanted parse_time now c k job))
      (ground (arith, h, has_job-runnable parse_time now c id jobs))

pub has_runnable_job-idle :
    (parse_time : String → Option ℕ) (now : ℕ) (c : Coordinator) (id : String)
    (jobs : List (String × ScoutJob))
    → has_runnable_job parse_time now c id jobs ≡ true
    → is_untaken (start_service_task_key scout_job id) c ≡ true
unfolding has_runnable_job
has_runnable_job-idle parse_time now c id [] h = absurd (ground (arith, h))
has_runnable_job-idle parse_time now c id ((k, job) ∷ jobs) h =
    let test =
      is_job_wanted parse_time now job && is_untaken (start_service_task_key scout_job k) c in
    elim (Bool-cases (k == id && test)) [
      | inl e ↦
          rw (sym ((eq_iff k id).0 (and_left (k == id) _ e)))
            (and_right (is_job_wanted parse_time now job) _ (and_right (k == id) _ e))
      | inr e ↦ has_runnable_job-idle parse_time now c id jobs (ground (arith, h, e))
    ]
