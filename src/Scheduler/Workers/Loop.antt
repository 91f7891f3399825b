-- ===== src/Scheduler/Workers/Loop.antt =====
-- The promises of runStartRepoCyclesSharedWorkers of internal/gocli/start_scheduler.go, whichever tasks
-- the repositories have and in whichever order the workers complete them.
use nana.Prelude.{
  ℕ, suc, ◌+◌, ◌-◌, ◌≤◌, ◌<◌, String, true, none, some, List, [], ◌∷◌, eqb, length, lookup, put,
  is_some, ◌≡◌, ◌≢◌, ◌⊎◌, ◌∙◌, refl, sym, ap, arith, inl, inr, Bool-cases, Option-cases,
}
use mathlib.Core.Path.{subst}
use nana.Scheduler.Workers.{
  Operations, Prepared, prepared, unprepared, left_out, Pool, Progress, waiting, finished, panicked,
  out_of_fuel, get_elem?, remove_at, add_error, complete, settle, run_workers, open_repos,
  empty_pool, run_start_repo_cycles, worker_count,
}
use nana.Scheduler.Workers.Staff.{
  IsStaffed, attends-get_elem?, attends-remove_at, attends-put, length-remove_at, no_errors,
}
use nana.Scheduler.Workers.Bounds.{fill-IsStaffed}

-- What holds of the loop behind any completions.
abbrev IsGoing {ℓ} : {C T E : Type ℓ} → ℕ → Progress C T E → Type ℓ
IsGoing max_workers (waiting q) = IsStaffed max_workers q × (0 < q.running)
IsGoing max_workers (finished q) = (q.in_flight ≡ []) × Unit {ℓ}
IsGoing max_workers panicked = Unit {ℓ}
IsGoing max_workers out_of_fuel = ⊥ × Unit {ℓ}

length-empty {ℓ} : {A : Type ℓ} (xs : List A) → length xs ≡ 0 → xs ≡ []
length-empty [] h = refl
length-empty (x ∷ xs) h = absurd (omega (arith, h))

module _ {ℓ} {C T R E : Type ℓ} (ops : Operations C T R E) (max_workers : ℕ) where
  -- A completion is received, unless an error has been recorded.
  complete-IsStaffed :
      (i : ℕ) (result : R) (p : Pool C T E)
      → IsStaffed max_workers p
      → ((q : Pool C T E) × (complete ops i result p ≡ some q) × IsStaffed max_workers q)
        ⊎ ((complete ops i result p ≡ none) × (p.errs ≢ []))
  unfolding complete
  complete-IsStaffed i result p s = elim (Option-cases (get_elem? p.in_flight i)) [
    | inl n ↦ inl (p, rw (complete, n) refl, s)
    | inr ((repo, t), m) ↦ elim (Option-cases (lookup repo p.coordinators)) [
      | inl n ↦ inr (
        rw (complete, m, n) refl,
        λ h.
            let there = attends-get_elem? p.in_flight i repo t p.coordinators (s.attended h) m in
            ground (arith, there, n),
      )
      | inr (c, n) ↦
          let step = ops.apply_result t result (ops.delete_running t c) in
          let fewer = length-remove_at p.in_flight i (repo, t) m in
          let all = s.counted in
          let most = s.within in
          inl (
            record p {
              coordinators = put repo step.0 p.coordinators;
              in_flight = remove_at p.in_flight i;
              running = p.running - 1;
              errs = add_error repo step.1 p.errs;
            },
            rw (complete, m, n) refl,
            record {
              counted = omega (arith, fewer, all);
              within = omega (arith, most);
              attended = λ h. attends-put (remove_at p.in_flight i) repo step.0 p.coordinators (
                  attends-remove_at p.in_flight i p.coordinators
                    (s.attended (no_errors repo step.1 p.errs h)));
            },
          )
    ]
  ]

  settle-IsGoing :
      (p : Pool C T E) (next : Pool C T E → Progress C T E)
      → IsStaffed max_workers p
      → ((q : Pool C T E) → IsStaffed max_workers q → 0 < q.running → IsGoing max_workers (next q))
      → IsGoing max_workers (settle ops max_workers p next)
  unfolding settle
  settle-IsGoing p next s h =
      let (q, e, t) =
        fill-IsStaffed ops max_workers (suc (max_workers + length p.order)) p s (omega arith) in
      elim (Bool-cases (eqb q.running 0)) [
        | inl z ↦
            let none_left = length-empty q.in_flight (t.counted ∙ ground (arith, z)) in
            rw (settle, e, z) (none_left, tt)
        | inr z ↦ rw (settle, e, z) (h q t (ground (arith, z)))
      ]

  run_workers-IsGoing :
      (completions : List (ℕ × R)) (p : Pool C T E)
      → IsStaffed max_workers p
      → IsGoing max_workers (run_workers ops max_workers completions p)
  unfolding run_workers
  run_workers-IsGoing [] p s = settle-IsGoing p waiting s (λ q t pos. (t, pos))
  run_workers-IsGoing ((i, result) ∷ rest) p s = settle-IsGoing p _ s (λ q t pos.
      elim (complete-IsStaffed i result q t) [
        | inl (r, e, u) ↦ rw e (run_workers-IsGoing rest r u)
        | inr (e, h) ↦ rw e tt
      ])

module _ {ℓ} {C T E : Type ℓ} where
  open_repos-IsStaffed :
      (max_workers : ℕ) (repos : List (String × Prepared C E)) (p : Pool C T E)
      → p.in_flight ≡ []
      → p.running ≡ 0
      → IsStaffed max_workers (open_repos repos p)
  unfolding open_repos
  open_repos-IsStaffed max_workers [] p f r = record {
    counted = ap length f ∙ sym r;
    within = omega (arith, r);
    attended = λ h. rw f refl;
  }
  open_repos-IsStaffed max_workers ((repo, left_out) ∷ rest) p f r =
      open_repos-IsStaffed max_workers rest p f r
  open_repos-IsStaffed max_workers ((repo, unprepared e) ∷ rest) p f r =
      open_repos-IsStaffed max_workers rest _ f r
  open_repos-IsStaffed max_workers ((repo, prepared c) ∷ rest) p f r =
      open_repos-IsStaffed max_workers rest _ f r

module _ {ℓ} {C T R E : Type ℓ} (ops : Operations C T R E) where
  going :
      (parallel : ℕ) (repos : List (String × Prepared C E)) (completions : List (ℕ × R))
      → IsGoing (worker_count parallel) (run_start_repo_cycles ops parallel repos completions)
  unfolding run_start_repo_cycles
  going parallel repos completions =
      run_workers-IsGoing ops (worker_count parallel) completions (open_repos repos empty_pool)
        (open_repos-IsStaffed (worker_count parallel) repos empty_pool refl refl)

  -- Whenever the loop waits for a completion, at least one task is in flight, the loop counts them
  -- all, and they are no more than options.Parallel, or one where that is not positive.
  pub run_start_repo_cycles-bound :
      (parallel : ℕ) (repos : List (String × Prepared C E)) (completions : List (ℕ × R))
      (q : Pool C T E)
      → run_start_repo_cycles ops parallel repos completions ≡ waiting q
      → (length q.in_flight ≡ q.running) × (0 < q.running) × (q.running ≤ worker_count parallel)
  run_start_repo_cycles-bound parallel repos completions q h =
      let (staffed, pos) =
        subst (IsGoing (worker_count parallel)) h (going parallel repos completions) in
      (staffed.counted, pos, staffed.within)

  -- Where the loop ends, every task that was handed to a worker has been received.
  pub run_start_repo_cycles-received :
      (parallel : ℕ) (repos : List (String × Prepared C E)) (completions : List (ℕ × R))
      (q : Pool C T E)
      → run_start_repo_cycles ops parallel repos completions ≡ finished q
      → q.in_flight ≡ []
  run_start_repo_cycles-received parallel repos completions q h =
      (subst (IsGoing (worker_count parallel)) h (going parallel repos completions)).0

  -- The inner loop, which starts tasks until no worker is free or no repository has a task, ends each
  -- time, behind any completions: each turn of it takes a worker or drops a repository.
  pub run_start_repo_cycles-ends :
      (parallel : ℕ) (repos : List (String × Prepared C E)) (completions : List (ℕ × R))
      → run_start_repo_cycles ops parallel repos completions ≢ out_of_fuel
  run_start_repo_cycles-ends parallel repos completions h =
      (subst (IsGoing (worker_count parallel)) h (going parallel repos completions)).0

  -- While the loop waits and has recorded no error, any task in flight has its coordinator, so that
  -- its completion is received and does not panic, whatever its result.
  pub run_start_repo_cycles-served :
      (parallel : ℕ) (repos : List (String × Prepared C E)) (completions : List (ℕ × R))
      (q : Pool C T E) (i : ℕ) (result : R)
      → run_start_repo_cycles ops parallel repos completions ≡ waiting q
      → q.errs ≡ []
      → is_some (complete ops i result q) ≡ true
  run_start_repo_cycles-served parallel repos completions q i result h e =
      let (staffed, pos) =
        subst (IsGoing (worker_count parallel)) h (going parallel repos completions) in
      elim (complete-IsStaffed ops (worker_count parallel) i result q staffed) [
        | inl (r, s, u) ↦ rw s refl
        | inr (s, k) ↦ absurd (k e)
      ]
