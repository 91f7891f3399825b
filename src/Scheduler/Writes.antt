-- ===== src/Scheduler/Writes.antt =====
-- Writes to the maps of the state that keep the names and the attempts of all service tasks.
use nana.Prelude.{
  String, Bool, true, false, Option, none, some, if◌then◌else◌, ◌≡◌, refl, sym, ap, arith, ◌∙◌,
}
use nana.Scheduler.State.{
  IssueState, PlannedItem, ScoutJob, ServiceTask, Coordinator, StepError, task_at, put_task,
  put_issue, put_item, put_job,
}
use nana.Scheduler.Launch.{put_found}
use nana.Scheduler.Attempts.{
  IsNamed, named, unnamed, IsNamed-as, Same, put_task-Same, Same-refl, Same-trans,
}

-- A write through the name of a task that is stored under a key.
pub put_named-Same :
    (key : String) (v : ServiceTask) (c : Coordinator)
    → IsNamed key (task_at key c.state)
    → v.id ≡ (task_at key c.state).id
    → v.attempts ≡ (task_at key c.state).attempts
    → Same c (put_task (task_at key c.state).id v c)
put_named-Same key v c (named p) i a =
    put_task-Same _ v c (named i) (λ h. a ∙ ap (λ k. (task_at k c.state).attempts) (sym p))
put_named-Same key v c (unnamed p) i a = put_task-Same _ v c (named i) (λ h. ground (arith, h p))

pub put_issue-Same : (key : String) (v : IssueState) (c : Coordinator) → Same c (put_issue key v c)
unfolding put_issue task_at
put_issue-Same key v c = record { names = λ w. w; attempts = λ j h. refl }

pub id_of : {v w : ServiceTask} → w ≡ v → v.id ≡ w.id
id_of h = ap ServiceTask.id (sym h)

pub attempts_of : {v w : ServiceTask} → w ≡ v → v.attempts ≡ w.attempts
attempts_of h = ap ServiceTask.attempts (sym h)

pub put_job-Same : (key : String) (v : ScoutJob) (c : Coordinator) → Same c (put_job key v c)
unfolding put_job task_at
put_job-Same key v c = record { names = λ w. w; attempts = λ j h. refl }

pub put_item-Same : (key : String) (v : PlannedItem) (c : Coordinator) → Same c (put_item key v c)
unfolding put_item task_at
put_item-Same key v c = record { names = λ w. w; attempts = λ j h. refl }

pub put_found-Same :
    (found : Option (String × ScoutJob)) (change : ScoutJob → ScoutJob) (c : Coordinator)
    → Same c (put_found found change c)
put_found-Same none change c = Same-refl c
put_found-Same (some (id, job)) change c = put_job-Same id (change job) c

pub refreshed-Same : {a b : Coordinator} → Same a b → Same a (record b { refresh_state = true })
refreshed-Same s = record { names = s.names; attempts = s.attempts }

-- A task under its own key, and an issue.
pub put_both-Same :
    (key issue_key : String) (v : ServiceTask) (issue : IssueState) (c : Coordinator)
    → IsNamed key (task_at key c.state)
    → v.id ≡ (task_at key c.state).id
    → v.attempts ≡ (task_at key c.state).attempts
    → Same c (put_issue issue_key issue (put_task key v c))
put_both-Same key issue_key v issue c n i a =
    Same-trans (put_task-Same key v c (IsNamed-as n i) (λ h. a)) (put_issue-Same issue_key issue _)

pub either-Same :
    (b : Bool) (p q : Coordinator × Option StepError) (c : Coordinator)
    → Same c p.0
    → Same c q.0
    → Same c (if b then p else q).0
either-Same true p q c x y = x
either-Same false p q c x y = y
