-- ===== src/Prelude/Text.antt =====
-- strings.TrimSpace, over the white space of the package unicode.

use Prim.Native.Char.{Char, code}
use Prim.Native.String.{String, ◌++◌}
use mathlib.Core.List.{List, [], ◌∷◌}
use Prim.Native.Nat.{ℕ}
use mathlib.Core.Option.{Option, none, some}
use mathlib.Core.Path.{◌≡◌}
use mathlib.Core.Logic.{inl, inr}
use text.Mathlib.TextEquality.{eq_iff}
use text.Mathlib.TextLemmas.{cons≢nil}
use nana.Prelude.Tests.{Bool-cases}
use mathlib.Core.Bool.{false, Bool, ◌&&◌, ◌||◌}
use text.Mathlib.Text.{◌==◌}
use nana.Prelude.Tests.{leb, eqb, if◌then◌else◌}

unfoldable pub is_space : Char → Bool
is_space c =
    let n = code c in
    (leb 9 n && leb n 13)
    || eqb n 32
    || eqb n 0x85
    || eqb n 0xa0
    || eqb n 0x1680
    || (leb 0x2000 n && leb n 0x200a)
    || eqb n 0x2028
    || eqb n 0x2029
    || eqb n 0x202f
    || eqb n 0x205f
    || eqb n 0x3000

unfoldable pub trim_left : String → String
unfolding is_space
trim_left String.[] = ""
trim_left (String.◌∷◌ c s) = let rest = trim_left s in if is_space c then rest else String.◌∷◌ c s

-- White space is kept only in front of something else.
unfoldable pub trim_right : String → String
unfolding is_space
trim_right String.[] = ""
trim_right (String.◌∷◌ c s) =
    let rest = trim_right s in if is_space c && rest == "" then "" else String.◌∷◌ c rest

unfoldable pub trim_space : String → String
unfolding trim_left trim_right
trim_space s = trim_right (trim_left s)

-- defaultString (internal/gocli/github_defaults.go)
unfoldable pub default_string : String → String → String
default_string value fallback = if trim_space value == "" then fallback else value

-- strings.SplitN in two: the parts around the first place of a character, which is given by its code.
abbrev pub in_front : Char → Option (String × String) → Option (String × String)
in_front c none = none
in_front c (some (before, behind)) = some (String.◌∷◌ c before, behind)

unfoldable pub cut_at : ℕ → String → Option (String × String)
cut_at n String.[] = none
cut_at n (String.◌∷◌ c s) =
    let rest = in_front c (cut_at n s) in if eqb (code c) n then some ("", s) else rest

-- strings.Join.
unfoldable pub join : String → List String → String
join sep [] = ""
join sep (s ∷ []) = s
join sep (s ∷ t ∷ rest) = s ++ sep ++ join sep (t ∷ rest)

pub cons_not_blank : (c : Char) (s : String) → (String.◌∷◌ c s == "") ≡ false
cons_not_blank c s = elim (Bool-cases (String.◌∷◌ c s == "")) [
  | inl h ↦ absurd (cons≢nil ((eq_iff (String.◌∷◌ c s) "").0 h))
  | inr h ↦ h
]
