-- ===== src/RepoLock/Abandoned.antt =====
-- The lock files that cleanupStaleRepoAccessLocks of internal/gocli/repo_access_lock.go removes.
use nana.Prelude.{
  ℕ, ◌+◌, String, Bool, true, not, ◌&&◌, ltb, and_left, and_right, trim_left, trim_right, Option,
  none, some, Option-cases, List, [], ◌∷◌, ◌==◌, trim_space, ◌≡◌, refl, arith, inl, inr,
}
use nana.RepoLock.Record.{record_stale}
use nana.RepoLock.World.{Content, blank, stored, World, clean_writer, clean_readers, is_removed}

-- A file that its process has left: one that it has not written, or that has its token and was not written
-- for more than 30 seconds, or at no time that can be read.
abbrev pub is_left : ℕ → Content → Bool
is_left now (blank q) = true
is_left now (stored r) =
    not (trim_space r.token == "")
    && elim r.updated_at [ none ↦ true | some updated_at ↦ ltb (updated_at + 30000000000) now ]

abbrev pub are_left : ℕ → List (String × Content) → Bool
are_left now [] = true
are_left now ((k, c) ∷ m) = let rest = are_left now m in is_left now c && rest

abbrev pub is_left_or_absent : ℕ → Option Content → Bool
is_left_or_absent now none = true
is_left_or_absent now (some c) = is_left now c

-- Every lock file has been left.
pub record IsAbandoned (w : World) : Type 0 where
  pub writer : is_left_or_absent w.now w.writer ≡ true
  pub readers : are_left w.now w.readers ≡ true

is_removed-is_left : (now : ℕ) (c : Content) → is_left now c ≡ true → is_removed "" now c ≡ true
unfolding is_removed record_stale trim_space trim_left trim_right
is_removed-is_left now (blank q) h = refl
is_removed-is_left now (stored r) h = elim (Option-cases r.updated_at) [
  | inl e ↦ rw e (ground (arith, rw e at h))
  | inr (t, e) ↦ rw e (ground (arith, rw e at h))
]

pub clean_writer-left :
    (now : ℕ) (c : Option Content) → is_left_or_absent now c ≡ true → clean_writer "" now c ≡ none
unfolding clean_writer
clean_writer-left now none h = refl
clean_writer-left now (some c) h = rw (is_removed-is_left now c h) refl

pub clean_readers-left :
    (now : ℕ) (m : List (String × Content)) → are_left now m ≡ true → clean_readers "" now m ≡ []
unfolding clean_readers
clean_readers-left now [] h = refl
clean_readers-left now ((k, c) ∷ m) h =
    rw (is_removed-is_left now c (and_left (is_left now c) _ h))
      (clean_readers-left now m (and_right (is_left now c) _ h))
