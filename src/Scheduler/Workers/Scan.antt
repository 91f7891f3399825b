-- ===== src/Scheduler/Workers/Scan.antt =====
-- What nextStartRepoTask of internal/gocli/start_scheduler.go returns, and what slices.DeleteFunc leaves.
use nana.Prelude.{
  ℕ, zero, suc, ◌+◌, ◌%◌, ◌≤◌, ◌<◌, String, Bool, true, false, ◌&&◌, some, List, [], ◌∷◌, ◌==◌,
  if◌then◌else◌, length, lookup, put, lookup-put, is_some, ◌≡◌, refl, arith, inl, inr, Bool-cases,
  Option-cases, eq_refl,
}
use nana.Scheduler.Workers.{
  Answer, ready, failing, nothing, Operations, Found, found, broken, exhausted, delete_repo,
  get_elem?, answered, scan_repos, next_start_repo_task,
}

abbrev pub has_repo : List String → String → Bool
has_repo [] repo = false
has_repo (r ∷ rs) repo = let rest = has_repo rs repo in if r == repo then true else rest

get_elem?-has_repo :
    (rs : List String) (n : ℕ) (repo : String)
    → get_elem? rs n ≡ some repo
    → has_repo rs repo ≡ true
get_elem?-has_repo [] n repo h = ground (arith, h)
get_elem?-has_repo (r ∷ rs) zero repo h = ground (arith, h, eq_refl repo)
get_elem?-has_repo (r ∷ rs) (suc n) repo h =
    let ih = get_elem?-has_repo rs n repo h in ground (arith, ih)

length-delete_repo : (rs : List String) (repo : String) → length (delete_repo repo rs) ≤ length rs
unfolding delete_repo
length-delete_repo [] repo = omega arith
length-delete_repo (r ∷ rs) repo = let ih = length-delete_repo rs repo in ground (arith, ih)

pub length-delete_repo_has :
    (rs : List String) (repo : String)
    → has_repo rs repo ≡ true
    → length (delete_repo repo rs) < length rs
unfolding delete_repo
length-delete_repo_has [] repo h = ground (arith, h)
length-delete_repo_has (r ∷ rs) repo h = elim (Bool-cases (r == repo)) [
  | inl e ↦ let le = length-delete_repo rs repo in rw e (omega (arith, le))
  | inr e ↦
      let ih = length-delete_repo_has rs repo (ground (arith, h, e)) in rw e (omega (arith, ih))
]

module _ {ℓ} {C : Type ℓ} where
  pub is_some-put :
      (k : String) (c : C) (cs : List (String × C)) → is_some (lookup k (put k c cs)) ≡ true
  is_some-put k c cs = rw (lookup-put k k c cs, eq_refl k) refl

module _ {ℓ} {C T R E : Type ℓ} (ops : Operations C T R E) where
  -- A repository of the list, and with a task one that has a coordinator.
  abbrev pub is_from : List String → List (String × C) → Found T E → Bool
  is_from order cs (found repo t) = has_repo order repo && is_some (lookup repo cs)
  is_from order cs (broken repo e) = has_repo order repo
  is_from order cs exhausted = true

  unfoldable is_scan : List String → List (String × C) × Found T E → Bool
  is_scan order s = is_from order s.0 s.1

  answered-is_scan :
      (order : List String) (repo : String) (answer : Answer T E) (cs : List (String × C))
      (rest : List (String × C) × Found T E)
      → has_repo order repo ≡ true
      → is_some (lookup repo cs) ≡ true
      → is_scan order rest ≡ true
      → is_scan order (answered ops repo answer cs rest) ≡ true
  unfolding is_scan
  answered-is_scan order repo (ready t) cs rest h s r = ground (arith, h, s)
  answered-is_scan order repo (failing e) cs rest h s r = h
  answered-is_scan order repo nothing cs rest h s r = r

  exhausted-is_scan :
      (order : List String) (cs : List (String × C)) → is_scan order (cs, exhausted) ≡ true
  unfolding is_scan
  exhausted-is_scan order cs = refl

  scan_repos-is_scan :
      (order : List String) (start left offset : ℕ) (cs : List (String × C))
      → is_scan order (scan_repos ops order start left offset cs) ≡ true
  unfolding scan_repos
  scan_repos-is_scan order start zero offset cs = exhausted-is_scan order cs
  scan_repos-is_scan order start (suc left) offset cs =
      elim (Option-cases (get_elem? order ((start + offset) % length order))) [
        | inl n ↦ rw (scan_repos, n) (exhausted-is_scan order cs)
        | inr (repo, s) ↦ elim (Option-cases (lookup repo cs)) [
          | inl m ↦ rw (scan_repos, s, m) (scan_repos-is_scan order start left (offset + 1) cs)
          | inr (c, m) ↦
              let ih =
                scan_repos-is_scan order start left (offset + 1)
                  (put repo (ops.next_task c).0 cs) in
              let all =
                answered-is_scan order repo (ops.next_task c).1 (put repo (ops.next_task c).0 cs)
                  (scan_repos ops order start left (offset + 1) (put repo (ops.next_task c).0 cs))
                  (get_elem?-has_repo order ((start + offset) % length order) repo s)
                  (is_some-put repo (ops.next_task c).0 cs) ih in
              rw (scan_repos, s, m) all
        ]
      ]

  pub next_start_repo_task-is_from :
      (order : List String) (start : ℕ) (cs : List (String × C))
      → is_from order
          (next_start_repo_task ops order start cs).0
          (next_start_repo_task ops order start cs).1
        ≡ true
  unfolding next_start_repo_task is_scan
  next_start_repo_task-is_from order start cs = scan_repos-is_scan order start (length order) 0 cs
