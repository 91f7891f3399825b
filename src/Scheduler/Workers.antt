-- ===== src/Scheduler/Workers.antt =====
-- internal/gocli/start_scheduler.go: the loop of runStartRepoCyclesSharedWorkers, which shares the
-- workers among repositories. A coordinator is a value with the operations that the loop calls.
use nana.Prelude.{
  ℕ, zero, suc, ◌+◌, ◌-◌, ◌%◌, String, Bool, true, false, Option, none, some, List, [], ◌∷◌, ◌++◌,
  ◌==◌, ltb, eqb, if◌then◌else◌, length, lookup, put,
}
use nana.Scheduler.Select.{next_start_repo_index}
pub mod Coordinators
mod Tests
mod Scan
mod Staff
mod Bounds
mod Loop

-- What nextTask returns.
pub data Answer {ℓ} (T E : Type ℓ) : Type ℓ where
  ready : T → Answer T E
  failing : E → Answer T E
  nothing : Answer T E

-- The operations of a coordinator, which has what it reads from files; and the entries of its map of
-- running tasks.
pub record Operations {ℓ} (C T R E : Type ℓ) : Type ℓ where
  pub next_task : C → C × Answer T E
  pub mark_started : T → C → C × Option E
  pub add_running : T → C → C
  pub delete_running : T → C → C
  pub apply_result : T → R → C → C × Option E
  pub complete_run : C → Option E
  pub finalize : String → Option E

-- What prepareStartRepoCycle returns.
pub data Prepared {ℓ} (C E : Type ℓ) : Type ℓ where
  prepared : C → Prepared C E
  unprepared : E → Prepared C E
  left_out : Prepared C E

-- The variables of the loop, an error with its repository, and the tasks handed to a worker whose completion it has not received.
pub record Pool {ℓ} (C T E : Type ℓ) : Type ℓ where
  pub order : List String
  pub coordinators : List (String × C)
  pub in_flight : List (String × T)
  pub running : ℕ
  pub next_index : ℕ
  pub errs : List (String × E)

-- What nextStartRepoTask returns: the repository with its answer.
pub data Found {ℓ} (T E : Type ℓ) : Type ℓ where
  found : String → T → Found T E
  broken : String → E → Found T E
  exhausted : Found T E

-- Where the loop stands behind some completions: it waits for the next one, or has ended with the
-- errors that it returns, or has called a method of a nil coordinator.
pub data Progress {ℓ} (C T E : Type ℓ) : Type ℓ where
  waiting : Pool C T E → Progress C T E
  finished : Pool C T E → Progress C T E
  panicked out_of_fuel : Progress C T E

-- slices.DeleteFunc.
unfoldable pub delete_repo : String → List String → List String
delete_repo repo [] = []
delete_repo repo (r ∷ rs) = let rest = delete_repo repo rs in if r == repo then rest else r ∷ rest

module _ {ℓ} {A : Type ℓ} where
  unfoldable pub delete : String → List (String × A) → List (String × A)
  delete k [] = []
  delete k ((j, v) ∷ m) = let rest = delete k m in if j == k then rest else (j, v) ∷ rest

  abbrev pub get_elem? : List A → ℕ → Option A
  get_elem? [] n = none
  get_elem? (x ∷ xs) zero = some x
  get_elem? (x ∷ xs) (suc n) = get_elem? xs n

  abbrev pub remove_at : List A → ℕ → List A
  remove_at [] n = []
  remove_at (x ∷ xs) zero = xs
  remove_at (x ∷ xs) (suc n) = x ∷ remove_at xs n

  abbrev pub add_error : String → Option A → List (String × A) → List (String × A)
  add_error repo none errs = errs
  add_error repo (some e) errs = errs ++ (repo, e) ∷ []

module _ {ℓ} {C T E : Type ℓ} where
  -- The loop over the repositories that prepares them.
  unfoldable pub open_repos : List (String × Prepared C E) → Pool C T E → Pool C T E
  open_repos [] p = p
  open_repos ((repo, left_out) ∷ rest) p = open_repos rest p
  open_repos ((repo, unprepared e) ∷ rest) p =
      open_repos rest (record p { errs = add_error repo (some e) p.errs })
  open_repos ((repo, prepared c) ∷ rest) p =
      open_repos rest
        (record p { order = p.order ++ repo ∷ []; coordinators = put repo c p.coordinators })

  abbrev pub empty_pool : Pool C T E
  empty_pool = record {
    order = [];
    coordinators = [];
    in_flight = [];
    running = 0;
    next_index = 0;
    errs = [];
  }

-- The number of workers, of options.Parallel as a natural number.
abbrev pub worker_count : ℕ → ℕ
worker_count parallel = if ltb 0 parallel then parallel else 1

module _ {ℓ} {C T R E : Type ℓ} (ops : Operations C T R E) where
  abbrev pub answered :
      String
      → Answer T E
      → List (String × C)
      → List (String × C) × Found T E
      → List (String × C) × Found T E
  answered repo (ready t) cs rest = (cs, found repo t)
  answered repo (failing e) cs rest = (cs, broken repo e)
  answered repo nothing cs rest = rest

  -- The loop of nextStartRepoTask from an offset, `left` repositories before its end.
  unfoldable pub scan_repos :
      List String → ℕ → ℕ → ℕ → List (String × C) → List (String × C) × Found T E
  scan_repos order start zero offset cs = (cs, exhausted)
  scan_repos order start (suc left) offset cs =
      elim (get_elem? order ((start + offset) % length order)) [
        | none ↦ (cs, exhausted)
        | some repo ↦ elim (lookup repo cs) [
          | none ↦ scan_repos order start left (offset + 1) cs
          | some c ↦
              let (d, answer) = ops.next_task c in
              answered repo answer (put repo d cs)
                (scan_repos order start left (offset + 1) (put repo d cs))
        ]
      ]

  unfoldable pub next_start_repo_task :
      List String → ℕ → List (String × C) → List (String × C) × Found T E
  next_start_repo_task order start cs = scan_repos order start (length order) 0 cs

  -- A repository whose coordinator fails is dropped.
  unfoldable pub drop_repo : String → E → Pool C T E → Pool C T E
  drop_repo repo e p =
      let order = delete_repo repo p.order in
      record p {
        order = order;
        coordinators = delete repo p.coordinators;
        next_index = (if ltb p.next_index (length order) then p.next_index else 0);
        errs = add_error repo (some e) p.errs;
      }

  unfoldable pub launch : String → T → Pool C T E → Pool C T E
  launch repo t p = elim (lookup repo p.coordinators) [
    | none ↦ p
    | some c ↦
        let (d, err) = ops.mark_started t c in
        let q = record p {
          next_index = next_start_repo_index p.order repo;
          coordinators = put repo d p.coordinators;
        } in
        elim err [
          | some e ↦ drop_repo repo e q
          | none ↦ record q {
            coordinators = put repo (ops.add_running t d) p.coordinators;
            in_flight = p.in_flight ++ (repo, t) ∷ [];
            running = p.running + 1;
          }
        ]
  ]

  -- The inner loop, on fuel: `none` where that is used up.
  unfoldable pub fill : ℕ → ℕ → Pool C T E → Option (Pool C T E)
  fill zero max_workers p = none
  fill (suc fuel) max_workers p = elim (ltb p.running max_workers) [
    | false ↦ some p
    | true ↦
        let (cs, answer) = next_start_repo_task p.order p.next_index p.coordinators in
        let q = record p { coordinators = cs } in
        elim answer [
          | exhausted ↦ some q
          | broken repo e ↦ fill fuel max_workers (drop_repo repo e q)
          | found repo t ↦ fill fuel max_workers (launch repo t q)
        ]
  ]

  -- The completion of the task at a place among those in flight.
  unfoldable pub complete : ℕ → R → Pool C T E → Option (Pool C T E)
  complete i result p = elim (get_elem? p.in_flight i) [
    | none ↦ some p
    | some (repo, t) ↦ elim (lookup repo p.coordinators) [
      | none ↦ none
      | some c ↦
          let (d, err) = ops.apply_result t result (ops.delete_running t c) in
          some (record p {
            coordinators = put repo d p.coordinators;
            in_flight = remove_at p.in_flight i;
            running = p.running - 1;
            errs = add_error repo err p.errs;
          })
    ]
  ]

  abbrev pub closing : String → Option (Option E) → List (String × E) → List (String × E)
  closing repo none errs = errs
  closing repo (some err) errs = add_error repo (ops.finalize repo) (add_error repo err errs)

  -- The loop over the repositories that are left; the errors are sorted behind it.
  unfoldable pub finish : List String → List (String × C) → List (String × E) → List (String × E)
  finish [] cs errs = errs
  finish (repo ∷ order) cs errs =
      finish order cs (closing repo (map_some ops.complete_run (lookup repo cs)) errs)
    where
      map_some : (C → Option E) → Option C → Option (Option E)
      map_some f none = none
      map_some f (some c) = some (f c)

  -- The outer loop, up to the next completion.
  unfoldable pub settle : ℕ → Pool C T E → (Pool C T E → Progress C T E) → Progress C T E
  settle max_workers p next = elim (fill (suc (max_workers + length p.order)) max_workers p) [
    | none ↦ out_of_fuel
    | some q ↦ elim (eqb q.running 0) [
      | true ↦ finished (record q { errs = finish q.order q.coordinators q.errs })
      | false ↦ next q
    ]
  ]

  unfoldable pub run_workers : ℕ → List (ℕ × R) → Pool C T E → Progress C T E
  run_workers max_workers [] p = settle max_workers p waiting
  run_workers max_workers ((i, result) ∷ rest) p = settle max_workers p (λ q.
      elim (complete i result q) [ none ↦ panicked | some r ↦ run_workers max_workers rest r ])

  -- The whole function.
  unfoldable pub run_start_repo_cycles :
      ℕ → List (String × Prepared C E) → List (ℕ × R) → Progress C T E
  run_start_repo_cycles parallel repos completions =
      run_workers (worker_count parallel) completions (open_repos repos empty_pool)
