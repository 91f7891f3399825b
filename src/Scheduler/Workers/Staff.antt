-- ===== src/Scheduler/Workers/Staff.antt =====
-- An invariant of the variables of runStartRepoCyclesSharedWorkers, kept by its steps.
use nana.Prelude.{
  ℕ, zero, suc, ◌+◌, ◌%◌, ◌≤◌, String, Bool, true, ◌&&◌, Option, none, some, List, [], ◌∷◌, ◌++◌,
  ltb, length, length-append, lookup, put, lookup-put, is_some, ◌≡◌, ◌≢◌, refl, arith, inl, inr,
  Option-cases,
}
use nana.Scheduler.Select.{next_start_repo_index}
use nana.Scheduler.Workers.Scan.{is_some-put}
use nana.Scheduler.Workers.{
  Answer, ready, failing, nothing, Operations, Found, exhausted, get_elem?, remove_at, add_error,
  answered, scan_repos, next_start_repo_task, Pool, drop_repo, launch,
}

-- Every task in flight has a coordinator.
abbrev pub attends {ℓ} : {C T : Type ℓ} → List (String × T) → List (String × C) → Bool
attends [] cs = true
attends ((repo, t) ∷ tasks) cs = let rest = attends tasks cs in is_some (lookup repo cs) && rest

-- The tasks in flight are counted, within the number of workers, and attended until there is an error.
pub record IsStaffed {ℓ} {C T E : Type ℓ} (max_workers : ℕ) (p : Pool C T E) : Type ℓ where
  pub counted : length p.in_flight ≡ p.running
  pub within : p.running ≤ max_workers
  pub attended : p.errs ≡ [] → attends p.in_flight p.coordinators ≡ true

module _ {ℓ} {C T : Type ℓ} where
  pub attends-put :
      (tasks : List (String × T)) (k : String) (c : C) (cs : List (String × C))
      → attends tasks cs ≡ true
      → attends tasks (put k c cs) ≡ true
  attends-put [] k c cs h = refl
  attends-put ((repo, t) ∷ tasks) k c cs h =
      let ih = attends-put tasks k c cs (ground (arith, h)) in
      let there = lookup-put k repo c cs in ground (arith, h, ih, there)

  attends-append :
      (tasks : List (String × T)) (repo : String) (t : T) (cs : List (String × C))
      → attends tasks cs ≡ true
      → is_some (lookup repo cs) ≡ true
      → attends (tasks ++ (repo, t) ∷ []) cs ≡ true
  attends-append [] repo t cs h s = ground (arith, s)
  attends-append ((r, u) ∷ tasks) repo t cs h s =
      let ih = attends-append tasks repo t cs (ground (arith, h)) s in ground (arith, h, ih)

  pub attends-remove_at :
      (tasks : List (String × T)) (i : ℕ) (cs : List (String × C))
      → attends tasks cs ≡ true
      → attends (remove_at tasks i) cs ≡ true
  attends-remove_at [] i cs h = refl
  attends-remove_at ((r, u) ∷ tasks) zero cs h = ground (arith, h)
  attends-remove_at ((r, u) ∷ tasks) (suc i) cs h =
      let ih = attends-remove_at tasks i cs (ground (arith, h)) in ground (arith, h, ih)

  pub attends-get_elem? :
      (tasks : List (String × T)) (i : ℕ) (repo : String) (t : T) (cs : List (String × C))
      → attends tasks cs ≡ true
      → get_elem? tasks i ≡ some (repo, t)
      → is_some (lookup repo cs) ≡ true
  attends-get_elem? [] i repo t cs h e = ground (arith, e)
  attends-get_elem? ((r, u) ∷ tasks) zero repo t cs h e = ground (arith, h, e)
  attends-get_elem? ((r, u) ∷ tasks) (suc i) repo t cs h e =
      attends-get_elem? tasks i repo t cs (ground (arith, h)) e

module _ {ℓ} {T : Type ℓ} where
  pub length-remove_at :
      (tasks : List (String × T)) (i : ℕ) (x : String × T)
      → get_elem? tasks i ≡ some x
      → suc (length (remove_at tasks i)) ≡ length tasks
  length-remove_at [] i x e = ground (arith, e)
  length-remove_at (y ∷ tasks) zero x e = refl
  length-remove_at (y ∷ tasks) (suc i) x e =
      let ih = length-remove_at tasks i x e in omega (arith, ih)

module _ {ℓ} {E : Type ℓ} where
  has_errors : (errs : List (String × E)) (x : String × E) → errs ++ x ∷ [] ≢ []
  has_errors [] x h = ground (arith, h)
  has_errors (y ∷ errs) x h = ground (arith, h)

  pub no_errors :
      (repo : String) (err : Option E) (errs : List (String × E))
      → add_error repo err errs ≡ []
      → errs ≡ []
  no_errors repo none errs h = h
  no_errors repo (some e) errs h = absurd (has_errors errs (repo, e) h)

module _ {ℓ} {C T R E : Type ℓ} (ops : Operations C T R E) where
  -- One pass of nextStartRepoTask keeps the coordinators that are there.
  unfoldable is_attended : List (String × T) → List (String × C) × Found T E → Bool
  is_attended tasks s = attends tasks s.0

  asked-is_attended :
      (tasks : List (String × T)) (repo : String) (answer : Answer T E) (cs : List (String × C))
      (rest : List (String × C) × Found T E)
      → attends tasks cs ≡ true
      → is_attended tasks rest ≡ true
      → is_attended tasks (answered ops repo answer cs rest) ≡ true
  unfolding is_attended
  asked-is_attended tasks repo (ready t) cs rest h r = h
  asked-is_attended tasks repo (failing e) cs rest h r = h
  asked-is_attended tasks repo nothing cs rest h r = r

  exhausted-is_attended :
      (tasks : List (String × T)) (cs : List (String × C))
      → attends tasks cs ≡ true
      → is_attended tasks (cs, exhausted) ≡ true
  unfolding is_attended
  exhausted-is_attended tasks cs h = h

  scan_repos-is_attended :
      (tasks : List (String × T)) (order : List String) (start left offset : ℕ)
      (cs : List (String × C))
      → attends tasks cs ≡ true
      → is_attended tasks (scan_repos ops order start left offset cs) ≡ true
  unfolding scan_repos
  scan_repos-is_attended tasks order start zero offset cs h = exhausted-is_attended tasks cs h
  scan_repos-is_attended tasks order start (suc left) offset cs h =
      elim (Option-cases (get_elem? order ((start + offset) % length order))) [
        | inl n ↦ rw (scan_repos, n) (exhausted-is_attended tasks cs h)
        | inr (repo, s) ↦ elim (Option-cases (lookup repo cs)) [
          | inl m ↦
              rw (scan_repos, s, m)
                (scan_repos-is_attended tasks order start left (offset + 1) cs h)
          | inr (c, m) ↦
              let d = (ops.next_task c).0 in
              let kept = attends-put tasks repo d cs h in
              let ih =
                scan_repos-is_attended tasks order start left (offset + 1) (put repo d cs) kept in
              let all =
                asked-is_attended tasks repo (ops.next_task c).1 (put repo d cs)
                  (scan_repos ops order start left (offset + 1) (put repo d cs)) kept ih in
              rw (scan_repos, s, m) all
        ]
      ]

  pub next_start_repo_task-attends :
      (tasks : List (String × T)) (order : List String) (start : ℕ) (cs : List (String × C))
      → attends tasks cs ≡ true
      → attends tasks (next_start_repo_task ops order start cs).0 ≡ true
  unfolding next_start_repo_task is_attended
  next_start_repo_task-attends tasks order start cs h =
      scan_repos-is_attended tasks order start (length order) 0 cs h

  pub drop_repo-IsStaffed :
      (max_workers : ℕ) (repo : String) (e : E) (p : Pool C T E)
      → IsStaffed max_workers p
      → IsStaffed max_workers (drop_repo ops repo e p)
  unfolding drop_repo
  drop_repo-IsStaffed max_workers repo e p s = record {
    counted = s.counted;
    within = s.within;
    attended = λ h. absurd (has_errors p.errs (repo, e) h);
  }

  pub launch-IsStaffed :
      (max_workers : ℕ) (repo : String) (t : T) (p : Pool C T E)
      → ltb p.running max_workers ≡ true
      → IsStaffed max_workers p
      → IsStaffed max_workers (launch ops repo t p)
  unfolding launch
  launch-IsStaffed max_workers repo t p l s = elim (Option-cases (lookup repo p.coordinators)) [
    | inl n ↦ rw (launch, n) s
    | inr (c, m) ↦ elim (Option-cases (ops.mark_started t c).1) [
      | inl n ↦
          let d = ops.add_running t (ops.mark_started t c).0 in
          let after : IsStaffed max_workers (record p {
            next_index = next_start_repo_index p.order repo;
            coordinators = put repo d p.coordinators;
            in_flight = p.in_flight ++ (repo, t) ∷ [];
            running = p.running + 1;
          }) =
            record {
              counted =
                  (let a = length-append p.in_flight ((repo, t) ∷ []) in
                    let b = s.counted in omega (arith, a, b));
              within = ground (arith, l);
              attended = λ h.
                  attends-append p.in_flight repo t (put repo d p.coordinators)
                    (attends-put p.in_flight repo d p.coordinators (s.attended h))
                    (is_some-put repo d p.coordinators);
            } in
          rw (launch, m, n) after
      | inr (e, n) ↦
          let d = (ops.mark_started t c).0 in
          let after : IsStaffed max_workers (record p {
            next_index = next_start_repo_index p.order repo;
            coordinators = put repo d p.coordinators;
          }) =
            record {
              counted = s.counted;
              within = s.within;
              attended = λ h. attends-put p.in_flight repo d p.coordinators (s.attended h);
            } in
          let dropped = drop_repo-IsStaffed max_workers repo e _ after in rw (launch, m, n) dropped
    ]
  ]
