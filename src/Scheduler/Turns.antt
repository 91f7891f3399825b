-- ===== src/Scheduler/Turns.antt =====
-- The order of the tasks that selectNextTask of internal/gocli/start_scheduler.go takes.
use nana.Prelude.{
  ℕ, zero, suc, ◌+◌, Bool, true, false, Option, none, some, List, [], ◌∷◌, ◌==◌, ◌≡◌, refl, arith,
  length, Bool-cases, inl, inr, ap,
}
use nana.Scheduler.State.{Coordinator, Task}
use nana.Scheduler.Select.{select_next_task, implementation_queue, service_queue}

abbrev take_then : Option Task → List Task → List Task
take_then none rest = []
take_then (some t) rest = t ∷ rest

-- The tasks in the order in which repeated calls take them from two queues.
unfoldable pub taken : ℕ → List Task → List Task → Coordinator → List Task
taken zero service implementation c = []
taken (suc fuel) service implementation c =
    let selected = select_next_task service implementation c in
    let rest = taken fuel selected.service selected.implementation selected.coordinator in
    take_then selected.task rest

-- One from each queue in turn, and behind the end of one the rest of the other; `from_implementation` says whose
-- turn it is.
unfoldable pub alternate : Bool → List Task → List Task → List Task
alternate true service [] = service
alternate true service (t ∷ implementation) = t ∷ alternate false service implementation
alternate false [] implementation = implementation
alternate false (s ∷ service) implementation = s ∷ alternate true service implementation

alternate-nil :
    (implementation : List Task) (b : Bool) → alternate b [] implementation ≡ implementation
unfolding alternate
alternate-nil [] true = refl
alternate-nil (t ∷ implementation) true = ap (λ ts. t ∷ ts) (alternate-nil implementation false)
alternate-nil implementation false = refl

alternate-done : (service : List Task) (b : Bool) → alternate b service [] ≡ service
unfolding alternate
alternate-done service true = refl
alternate-done [] false = refl
alternate-done (s ∷ service) false = refl

turn_to_service :
    (s : Task) (service : List Task) (t : Task) (i : List Task)
    → t ∷ alternate (service_queue == implementation_queue) (s ∷ service) i
      ≡ alternate true (s ∷ service) (t ∷ i)
unfolding alternate
turn_to_service s service t i = refl

turn_to_implementation :
    (s : Task) (service : List Task) (t : Task) (i : List Task)
    → s ∷ alternate (implementation_queue == implementation_queue) service (t ∷ i)
      ≡ alternate false (s ∷ service) (t ∷ i)
unfolding alternate
turn_to_implementation s service t i = refl

taken_within :
    (fuel : ℕ) (service implementation : List Task) (c : Coordinator)
    → length service + length implementation ≡ fuel
    → taken fuel service implementation c
      ≡ alternate (c.next_queue == implementation_queue) service implementation
unfolding taken select_next_task
taken_within zero [] [] c h = rw (alternate-nil [] (c.next_queue == implementation_queue))
taken_within zero [] (t ∷ i) c h = ground (arith, h)
taken_within zero (s ∷ service) i c h = ground (arith, h)
taken_within (suc fuel) [] [] c h = ground (arith, h)
taken_within (suc fuel) [] (t ∷ i) c h = rw (
  taken_within fuel [] i (record c { next_queue = service_queue }) (omega (arith, h)),
  alternate-nil i _,
  alternate-nil (t ∷ i) _,
)
taken_within (suc fuel) (s ∷ service) [] c h = rw (
  taken_within fuel service [] (record c { next_queue = implementation_queue }) (omega (arith, h)),
  alternate-done service _,
  alternate-done (s ∷ service) _,
)
taken_within (suc fuel) (s ∷ service) (t ∷ i) c h =
    elim (Bool-cases (c.next_queue == implementation_queue)) [
      | inl e ↦ rw (
        e,
        taken_within fuel (s ∷ service) i (record c { next_queue = service_queue })
            (omega (arith, h)),
        turn_to_service s service t i,
      )
      | inr e ↦ rw (
        e,
        taken_within fuel service (t ∷ i) (record c { next_queue = implementation_queue })
            (omega (arith, h)),
        turn_to_implementation s service t i,
      )
    ]

-- Repeated calls take every task of both queues once, each queue in its order, in turn between the
-- queues while both have a task, starting with the queue that `next_queue` says.
pub taken-alternate :
    (service implementation : List Task) (c : Coordinator)
    → taken (length service + length implementation) service implementation c
      ≡ alternate (c.next_queue == implementation_queue) service implementation
taken-alternate service implementation c =
    taken_within (length service + length implementation) service implementation c refl
