-- ===== src/Scheduler/Attempts.antt =====
-- The attempts that a service task counts, under what the coordinator does to its state.
use nana.Prelude.{
  String, Option, none, some, ◌==◌, if◌then◌else◌, ◌≡◌, ◌≢◌, refl, arith, ◌∙◌, eq_iff,
}
use nana.Scheduler.State.{
  ServiceTask, WorkState, Coordinator, StepError, task_at, put_task, written,
}
use nana.Scheduler.Stored.{task_at-put_task}

-- A task names the key that it is stored under, or was made from nothing.
pub data IsNamed (key : String) (task : ServiceTask) : Type 0 where
  named : task.id ≡ key → IsNamed key task
  unnamed : task.id ≡ "" → IsNamed key task

abbrev pub IsWellFormed : WorkState → Type 0
IsWellFormed state = (key : String) → IsNamed key (task_at key state)

-- What is written keeps the names and the attempts.
pub record Same (a b : Coordinator) : Type 0 where
  pub names : IsWellFormed a.state → IsWellFormed b.state
  pub attempts :
      (key : String) → key ≢ "" → (task_at key b.state).attempts ≡ (task_at key a.state).attempts

pub IsNamed-if :
    (k j : String) (v w : ServiceTask)
    → IsNamed k v
    → IsNamed j w
    → IsNamed j (if k == j then v else w)
IsNamed-if k j v w (named p) q = ground (arith, eq_iff k j)
IsNamed-if k j v w (unnamed p) q = ground (arith, eq_iff k j)

pub IsNamed-as : {key : String} {v w : ServiceTask} → IsNamed key w → v.id ≡ w.id → IsNamed key v
IsNamed-as (named p) i = named (i ∙ p)
IsNamed-as (unnamed p) i = unnamed (i ∙ p)

pub put_task-Same :
    (k : String) (v : ServiceTask) (c : Coordinator)
    → IsNamed k v
    → (k ≢ "" → v.attempts ≡ (task_at k c.state).attempts)
    → Same c (put_task k v c)
put_task-Same k v c n e = record {
  names = λ w j. rw (task_at-put_task k j v c) (IsNamed-if k j v (task_at j c.state) n (w j));
  attempts = λ j h. ground (arith, task_at-put_task k j v c, eq_iff k j, e);
}

pub Same-refl : (c : Coordinator) → Same c c
Same-refl c = record { names = λ w. w; attempts = λ j h. refl }

pub Same-trans : {a b c : Coordinator} → Same a b → Same b c → Same a c
Same-trans p q = record {
  names = λ w. q.names (p.names w);
  attempts = λ j h. q.attempts j h ∙ p.attempts j h;
}

pub written-Same :
    (write : Option String) (next : Option StepError) (a b : Coordinator)
    → Same a b
    → Same a (written write b next).0
unfolding written
written-Same none next a b s = s
written-Same (some e) next a b s = s
