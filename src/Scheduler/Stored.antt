-- ===== src/Scheduler/Stored.antt =====
-- What the state holds behind a write to one of its maps.
use nana.Prelude.{String, List, lookup, put, lookup-put, ◌==◌, if◌then◌else◌, ◌≡◌, refl, arith}
use nana.Scheduler.State.{
  IssueState, ServiceTask, PlannedItem, ScoutJob, Coordinator, issue_at, task_at, item_at, job_at,
  put_issue, put_task, put_item, put_job, or_zero, zero_task, zero_issue, zero_item, zero_job,
}

pub or_zero-put {ℓ} :
    {A : Type ℓ} (z : A) (k j : String) (v : A) (m : List (String × A))
    → or_zero z (lookup j (put k v m)) ≡ (if k == j then v else or_zero z (lookup j m))
or_zero-put z k j v m = ground (arith, lookup-put k j v m)

pub task_at-put_task :
    (k j : String) (v : ServiceTask) (c : Coordinator)
    → task_at j (Coordinator.state (put_task k v c)) ≡ (if k == j then v else task_at j c.state)
unfolding put_task task_at
task_at-put_task k j v c = or_zero-put zero_task k j v _

pub issue_at-put_issue :
    (k j : String) (v : IssueState) (c : Coordinator)
    → issue_at j (Coordinator.state (put_issue k v c)) ≡ (if k == j then v else issue_at j c.state)
unfolding put_issue issue_at
issue_at-put_issue k j v c = or_zero-put zero_issue k j v _

pub item_at-put_item :
    (k j : String) (v : PlannedItem) (c : Coordinator)
    → item_at j (Coordinator.state (put_item k v c)) ≡ (if k == j then v else item_at j c.state)
unfolding put_item item_at
item_at-put_item k j v c = or_zero-put zero_item k j v _

pub job_at-put_job :
    (k j : String) (v : ScoutJob) (c : Coordinator)
    → job_at j (Coordinator.state (put_job k v c)) ≡ (if k == j then v else job_at j c.state)
unfolding put_job job_at
job_at-put_job k j v c = or_zero-put zero_job k j v _

pub task_at-put_issue :
    (k j : String) (v : IssueState) (c : Coordinator)
    → task_at j (Coordinator.state (put_issue k v c)) ≡ task_at j c.state
unfolding put_issue task_at
task_at-put_issue k j v c = refl

pub task_at-put_item :
    (k j : String) (v : PlannedItem) (c : Coordinator)
    → task_at j (Coordinator.state (put_item k v c)) ≡ task_at j c.state
unfolding put_item task_at
task_at-put_item k j v c = refl

pub task_at-put_job :
    (k j : String) (v : ScoutJob) (c : Coordinator)
    → task_at j (Coordinator.state (put_job k v c)) ≡ task_at j c.state
unfolding put_job task_at
task_at-put_job k j v c = refl

pub issue_at-put_task :
    (k j : String) (v : ServiceTask) (c : Coordinator)
    → issue_at j (Coordinator.state (put_task k v c)) ≡ issue_at j c.state
unfolding put_task issue_at
issue_at-put_task k j v c = refl

pub item_at-put_job :
    (k j : String) (v : ScoutJob) (c : Coordinator)
    → item_at j (Coordinator.state (put_job k v c)) ≡ item_at j c.state
unfolding put_job item_at
item_at-put_job k j v c = refl
