-- ===== src/Prelude/Pairwise.antt =====
-- Two lists that agree entry by entry, and the searches of `find_key` in them.
use mathlib.Core.Path.{◌≡◌, refl}
use mathlib.Core.Logic.{◌⊎◌, inl, inr}
use mathlib.Core.List.{List, [], ◌∷◌, ◌++◌}
use mathlib.Core.Option.{none, some}
use Prim.Native.String.{String}
use text.Mathlib.Text.{◌==◌}
use nana.Prelude.Tests.{Bool-cases}
use nana.Prelude.Lists.{find_key, set_key}

abbrev pub Pairwise : {A : Type 0} → (A → A → Type 0) → List A → List A → Type 0
Pairwise R [] [] = Unit {0}
Pairwise R [] (b ∷ bs) = ⊥
Pairwise R (a ∷ rs) [] = ⊥
Pairwise R (a ∷ rs) (b ∷ bs) = R a b × Pairwise R rs bs

module _ {A : Type 0} (R : A → A → Type 0) where
  pub Pairwise-append_one :
      (rs bs : List A) (a b : A)
      → R a b
      → Pairwise R rs bs
      → Pairwise R (rs ++ a ∷ []) (bs ++ b ∷ [])
  Pairwise-append_one [] [] a b h p = (h, tt)
  Pairwise-append_one [] (_ ∷ _) a b h p = elim p [ ]
  Pairwise-append_one (_ ∷ _) [] a b h p = elim p [ ]
  Pairwise-append_one (_ ∷ rs) (_ ∷ bs) a b h p = (p.0, Pairwise-append_one rs bs a b h p.1)

module _ {A : Type 0} (R : A → A → Type 0) (key : A → String)
    (same_key : (a b : A) → R a b → key a ≡ key b) where
  pub Pairwise-find :
      (k : String) (rs bs : List A)
      → Pairwise R rs bs
      → ((find_key key k rs ≡ none) × (find_key key k bs ≡ none))
        ⊎ ((a : A) × (b : A) × (find_key key k rs ≡ some a) × (find_key key k bs ≡ some b) × R a b)
  unfolding find_key
  Pairwise-find k [] [] p = inl (refl, refl)
  Pairwise-find k [] (_ ∷ _) p = elim p [ ]
  Pairwise-find k (_ ∷ _) [] p = elim p [ ]
  Pairwise-find k (r ∷ rs) (s ∷ bs) p = elim (Bool-cases (key r == k)) [
    | inl hit ↦ inr (r, s, rw hit, rw (rw (same_key r s p.0) at hit), p.0)
    | inr miss ↦
        rw (miss, find_key)
          (rw (rw (same_key r s p.0) at miss, find_key) (Pairwise-find k rs bs p.1))
  ]

  pub Pairwise-set :
      (k : String) (rs bs : List A) (a b : A)
      → R a b
      → Pairwise R rs bs
      → Pairwise R (set_key key k a rs) (set_key key k b bs)
  unfolding set_key
  Pairwise-set k [] [] a b h p = tt
  Pairwise-set k [] (_ ∷ _) a b h p = elim p [ ]
  Pairwise-set k (_ ∷ _) [] a b h p = elim p [ ]
  Pairwise-set k (r ∷ rs) (s ∷ bs) a b h p = elim (Bool-cases (key r == k)) [
    | inl hit ↦ rw (hit, rw (same_key r s p.0) at hit) (h, p.1)
    | inr miss ↦ rw (miss, rw (same_key r s p.0) at miss) (p.0, Pairwise-set k rs bs a b h p.1)
  ]
