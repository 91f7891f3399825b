-- ===== src/Scheduler/Rounds.antt =====
-- The repository that nextStartRepoIndex of internal/gocli/start_scheduler.go lets follow.
use nana.Prelude.{
  ℕ, suc, ◌+◌, ◌%◌, String, Bool, true, false, List, [], ◌∷◌, ◌++◌, ◌==◌, ◌≡◌, refl, arith, length,
  length-append, if◌then◌else◌, ap, ◌∙◌, eq_refl, Bool-cases, inl, inr,
}
use native.Mathlib.Nat.{mod_self, mod-eq_of_lt}
use nana.Scheduler.Select.{index_after, next_start_repo_index}

-- No entry is the repository.
abbrev pub is_absent : String → List String → Bool
is_absent repo [] = true
is_absent repo (r ∷ rs) = let rest = is_absent repo rs in if r == repo then false else rest

index_after-append :
    (count index : ℕ) (front back : List String) (repo : String)
    → is_absent repo front ≡ true
    → index_after count index (front ++ repo ∷ back) repo ≡ (index + length front + 1) % count
unfolding index_after
index_after-append count index [] back repo h =
    rw (eq_refl repo) (ap (λ n. n % count) (omega arith))
index_after-append count index (r ∷ front) back repo h = elim (Bool-cases (r == repo)) [
  | inl e ↦ ground (arith, e, h)
  | inr e ↦ rw e (
      index_after-append count (index + 1) front back repo (ground (arith, e, h))
      ∙ ap (λ n. n % count) (omega arith))
]

-- The first clause of next_start_repo_index is the other one's answer too.
next_start_repo_index_all :
    (rs : List String) (repo : String)
    → next_start_repo_index rs repo ≡ index_after (length rs) 0 rs repo
unfolding next_start_repo_index index_after
next_start_repo_index_all [] repo = refl
next_start_repo_index_all (r ∷ rs) repo = refl

abbrev pub following : ℕ → List String → ℕ
following n [] = 0
following n (r ∷ rs) = n

following-% :
    (n : ℕ) (back : List String) → (n + 1) % (n + suc (length back)) ≡ following (n + 1) back
following-% n [] = mod_self (n + 1)
following-% n (r ∷ rs) = mod-eq_of_lt (omega arith)

-- In a list that has the repository, the next index is the one behind its first place, and 0 behind
-- the last place.
pub next_start_repo_index-append :
    (front back : List String) (repo : String)
    → is_absent repo front ≡ true
    → next_start_repo_index (front ++ repo ∷ back) repo ≡ following (length front + 1) back
next_start_repo_index-append front back repo h =
    next_start_repo_index_all (front ++ repo ∷ back) repo
    ∙ index_after-append (length (front ++ repo ∷ back)) 0 front back repo h
    ∙ ap (λ n. n % length (front ++ repo ∷ back)) (omega arith)
    ∙ ap (λ n. (length front + 1) % n) (length-append front (repo ∷ back))
    ∙ following-% (length front) back
