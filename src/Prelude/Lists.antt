-- ===== src/Prelude/Lists.antt =====
-- Lists over the native numbers, and lists of entries that a text names.
use Prim.Native.Nat.{ℕ, suc, ◌+◌}
use Prim.Native.String.{String}
use mathlib.Core.Path.{◌≡◌, refl}
use text.Mathlib.TextEquality.{eq_iff}
use mathlib.Core.Bool.{Bool, false, ◌||◌}
use mathlib.Core.List.{List, [], ◌∷◌, ◌++◌}
use mathlib.Core.Option.{Option, none, some}
use native.Mathlib.Omega.{arith}
use text.Mathlib.Text.{◌==◌}
use nana.Prelude.Tests.{if◌then◌else◌}

module _ {ℓ} {A : Type ℓ} where
  abbrev pub length : List A → ℕ
  length [] = 0
  length (x ∷ xs) = suc (length xs)

  pub length-append : (xs ys : List A) → length (xs ++ ys) ≡ length xs + length ys
  length-append [] ys = omega arith
  length-append (x ∷ xs) ys = omega (arith, length-append xs ys)

-- An association list stands for a Go map: the first entry of a key counts.
module _ {ℓ} {V : Type ℓ} where
  unfoldable pub lookup : String → List (String × V) → Option V
  lookup k [] = none
  lookup k ((j, v) ∷ m) = if j == k then some v else lookup k m

-- Whether a slice of texts, or the keys of a map, have one.
unfoldable pub member : String → List String → Bool
member k [] = false
member k (j ∷ js) = let rest = member k js in j == k || rest

-- The keys of a map, in the order of the association list.
unfoldable pub keys_of {ℓ} : {V : Type ℓ} → List (String × V) → List String
keys_of [] = []
keys_of ((k, v) ∷ m) = k ∷ keys_of m

-- A slice that is searched by a text key: the first entry of the key is found, and is the one that
-- a write through the pointer found changes.
module _ {ℓ} {A : Type ℓ} (key : A → String) where
  unfoldable pub find_key : String → List A → Option A
  find_key k [] = none
  find_key k (x ∷ xs) = if key x == k then some x else find_key k xs

  unfoldable pub set_key : String → A → List A → List A
  set_key k a [] = []
  set_key k a (x ∷ xs) = if key x == k then a ∷ xs else x ∷ set_key k a xs

-- `m[k] = v` on a Go map.
module _ {ℓ} {V : Type ℓ} where
  unfoldable pub put : String → V → List (String × V) → List (String × V)
  put k v [] = (k, v) ∷ []
  put k v ((j, w) ∷ m) = let rest = (j, w) ∷ put k v m in if j == k then (k, v) ∷ m else rest

  pub lookup-put :
      (k j : String) (v : V) (m : List (String × V))
      → lookup j (put k v m) ≡ (if k == j then some v else lookup j m)
  unfolding lookup put
  lookup-put k j v [] = refl
  lookup-put k j v ((i, w) ∷ m) =
      ground (arith, eq_iff i k, eq_iff i j, eq_iff k j, lookup-put k j v m)

-- `delete(m, k)` on a Go map.
module _ {ℓ} {V : Type ℓ} where
  unfoldable pub delete : String → List (String × V) → List (String × V)
  delete k [] = []
  delete k ((j, v) ∷ m) = let rest = delete k m in if j == k then rest else (j, v) ∷ rest

  pub lookup-delete :
      (k j : String) (m : List (String × V))
      → lookup j (delete k m) ≡ (if k == j then none else lookup j m)
  unfolding lookup delete
  lookup-delete k j [] = ground arith
  lookup-delete k j ((i, w) ∷ m) =
      ground (arith, eq_iff i k, eq_iff i j, eq_iff k j, lookup-delete k j m)

  pub lookup-no_key :
      (k : String) (m : List (String × V)) → member k (keys_of m) ≡ false → lookup k m ≡ none
  unfolding lookup member keys_of
  lookup-no_key k [] h = refl
  lookup-no_key k ((i, w) ∷ m) h = ground (arith, h, lookup-no_key k m)
