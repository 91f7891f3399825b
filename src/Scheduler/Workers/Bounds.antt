-- ===== src/Scheduler/Workers/Bounds.antt =====
-- The inner loop of runStartRepoCyclesSharedWorkers ends, and the workers in use stay within bounds.
use nana.Prelude.{
  ℕ, zero, suc, ◌+◌, ◌-◌, ◌<◌, String, true, some, ltb, length, lookup, put, is_some, ◌≡◌, ◌⊎◌,
  refl, arith, inl, inr, Bool-cases, Option-cases,
}
use nana.Scheduler.Select.{next_start_repo_index}
use nana.Scheduler.Workers.{
  Operations, Found, found, broken, exhausted, next_start_repo_task, Pool, drop_repo, launch, fill,
}
use nana.Scheduler.Workers.Scan.{has_repo, length-delete_repo_has, next_start_repo_task-is_from}
use nana.Scheduler.Workers.Staff.{
  IsStaffed, next_start_repo_task-attends, drop_repo-IsStaffed, launch-IsStaffed,
}

-- What the inner loop can still do: start a worker or drop a repository.
abbrev pub left_to_do {ℓ} : {C T E : Type ℓ} → ℕ → Pool C T E → ℕ
left_to_do max_workers p = (max_workers - p.running) + length p.order

Found-cases {ℓ} :
    {T E : Type ℓ} (a : Found T E)
    → (a ≡ exhausted)
      ⊎ ((repo : String) × (e : E) × (a ≡ broken repo e))
      ⊎ ((repo : String) × (t : T) × (a ≡ found repo t))
Found-cases exhausted = inl refl
Found-cases (broken repo e) = inr (inl (repo, e, refl))
Found-cases (found repo t) = inr (inr (repo, t, refl))

module _ {ℓ} {C T R E : Type ℓ} (ops : Operations C T R E) (max_workers : ℕ) where
  drop_repo-left :
      (repo : String) (e : E) (p : Pool C T E)
      → has_repo p.order repo ≡ true
      → left_to_do max_workers (drop_repo ops repo e p) < left_to_do max_workers p
  unfolding drop_repo
  drop_repo-left repo e p h =
      let shorter = length-delete_repo_has p.order repo h in omega (arith, shorter)

  launch-left :
      (repo : String) (t : T) (p : Pool C T E)
      → ltb p.running max_workers ≡ true
      → has_repo p.order repo ≡ true
      → is_some (lookup repo p.coordinators) ≡ true
      → left_to_do max_workers (launch ops repo t p) < left_to_do max_workers p
  unfolding launch
  launch-left repo t p l h k = elim (Option-cases (lookup repo p.coordinators)) [
    | inl n ↦ absurd (ground (arith, k, n))
    | inr (c, m) ↦ elim (Option-cases (ops.mark_started t c).1) [
      | inl n ↦ rw (launch, m, n) (ground (arith, l))
      | inr (e, n) ↦
          let after : Pool C T E = record p {
            next_index = next_start_repo_index p.order repo;
            coordinators = put repo (ops.mark_started t c).0 p.coordinators;
          } in
          let dropped = drop_repo-left repo e after h in rw (launch, m, n) dropped
    ]
  ]

  scanned : Pool C T E → Pool C T E
  scanned p = record p {
    coordinators = (next_start_repo_task ops p.order p.next_index p.coordinators).0;
  }

  scanned-IsStaffed : (p : Pool C T E) → IsStaffed max_workers p → IsStaffed max_workers (scanned p)
  unfolding scanned
  scanned-IsStaffed p s = record {
    counted = s.counted;
    within = s.within;
    attended = λ h.
        next_start_repo_task-attends ops p.in_flight p.order p.next_index p.coordinators
          (s.attended h);
  }

  -- The inner loop ends where the fuel is above what it can still do.
  pub fill-IsStaffed :
      (fuel : ℕ) (p : Pool C T E)
      → IsStaffed max_workers p
      → left_to_do max_workers p < fuel
      → (q : Pool C T E) × (fill ops fuel max_workers p ≡ some q) × IsStaffed max_workers q
  unfolding fill scanned
  fill-IsStaffed zero p s h = absurd (omega (arith, h))
  fill-IsStaffed (suc fuel) p s h =
      let q = scanned p in
      let t = scanned-IsStaffed p s in
      let from = next_start_repo_task-is_from ops p.order p.next_index p.coordinators in
      elim (Bool-cases (ltb p.running max_workers)) [
        | inr l ↦ (p, rw (fill, l) refl, s)
        | inl l ↦
            elim (Found-cases (next_start_repo_task ops p.order p.next_index p.coordinators).1) [
              | inl f ↦ (q, rw (fill, l, f) refl, t)
              | inr (inl (repo, e, f)) ↦
                  let less = drop_repo-left repo e q (ground (arith, from, f)) in
                  let (r, ends, staffed) =
                    fill-IsStaffed fuel (drop_repo ops repo e q)
                      (drop_repo-IsStaffed ops max_workers repo e q t) (omega (arith, less, h)) in
                  (r, rw (fill, l, f) ends, staffed)
              | inr (inr (repo, u, f)) ↦
                  let less =
                    launch-left repo u q l (ground (arith, from, f)) (ground (arith, from, f)) in
                  let (r, ends, staffed) =
                    fill-IsStaffed fuel (launch ops repo u q)
                      (launch-IsStaffed ops max_workers repo u q l t) (omega (arith, less, h)) in
                  (r, rw (fill, l, f) ends, staffed)
            ]
      ]
