-- ===== src/Toml/Assigned.antt =====
-- The line that UpsertTopLevelTomlString writes, for a bare key.
use Prim.Native.Char.{Char, code}
use Prim.Native.String.{◌++◌}
use text.Mathlib.TextLemmas.{cons-append, nil-append}
use nana.Prelude.{
  ℕ, String, Bool, true, false, not, ◌&&◌, ◌||◌, some, ◌==◌, eqb, leb, if◌then◌else◌, trim_space,
  trim_left, trim_right, is_space, cut_at, cons_not_blank, ◌≡◌, refl, ap, ◌∙◌, arith, eq_refl,
  and_left, and_right,
}
use nana.Toml.Text.{before_hash, begins, ends, drop_last}
use nana.Toml.{
  is_skipped, is_header, assigned, parse_toml_string_value, escape_toml_string, assignment,
}

-- A test holds for every character, by its code.
unfoldable pub every : (ℕ → Bool) → String → Bool
every p String.[] = true
every p (String.◌∷◌ c s) = let rest = every p s in p (code c) && rest

-- The characters of a bare key, and those that no value here has: `#` and the line ends.
abbrev pub is_bare_code : ℕ → Bool
is_bare_code n =
    (leb 48 n && leb n 57)
    || (leb 65 n && leb n 90)
    || (leb 97 n && leb n 122)
    || eqb n 95
    || eqb n 45

unfoldable pub is_bare : String → Bool
is_bare key = not (key == "") && every is_bare_code key

abbrev pub is_inline_code : ℕ → Bool
is_inline_code n = not (eqb n 35 || eqb n 10 || eqb n 13)

unfoldable pub is_inline : String → Bool
is_inline value = every is_inline_code value

bare_no_space : (c : Char) → is_bare_code (code c) ≡ true → is_space c ≡ false
unfolding is_space
bare_no_space c h = ground (arith, h)

-- What stands behind the `=`.
abbrev pub quoted : String → String
quoted w = String.◌∷◌ "\"" (w ++ "\"")

abbrev pub spaced : String → String
spaced w = String.◌∷◌ " " (quoted w)

trim_space-bare :
    (c : Char) (s : String)
    → is_bare_code (code c) ≡ true
    → trim_space (String.◌∷◌ c s) ≡ String.◌∷◌ c (trim_right s)
unfolding trim_space trim_left trim_right
trim_space-bare c s h = rw (bare_no_space c h) (rw (bare_no_space c h) refl)

trim_right-bare : (key : String) → every is_bare_code key ≡ true → trim_right (key ++ " ") ≡ key
unfolding every trim_right
trim_right-bare String.[] h = refl
trim_right-bare (String.◌∷◌ c s) h =
    let ih = trim_right-bare s (and_right (is_bare_code (code c)) _ h) in
    let visible = bare_no_space c (and_left (is_bare_code (code c)) _ h) in
    rw (cons-append c s " ") (rw (trim_right, visible, ih) refl)

bare_no_equals : (c : Char) → is_bare_code (code c) ≡ true → eqb (code c) 61 ≡ false
bare_no_equals c h = ground (arith, h)

inline_no_hash : (c : Char) → is_inline_code (code c) ≡ true → eqb (code c) 35 ≡ false
inline_no_hash c h = ground (arith, h)

quoted_not_blank : (w : String) → (w ++ "\"" == "") ≡ false
quoted_not_blank String.[] = refl
quoted_not_blank (String.◌∷◌ c s) = rw (cons-append c s "\"") (cons_not_blank c (s ++ "\""))

cut_at-equals : (w : String) → cut_at 61 (" = \"" ++ w ++ "\"") ≡ some (" ", spaced w)
unfolding cut_at
cut_at-equals w = rw (cons-append " " "= \"" (w ++ "\"")) (
    rw (cons-append "=" " \"" (w ++ "\"")) (
      rw (cons-append " " "\"" (w ++ "\""))
        (rw (cons-append "\"" "" (w ++ "\"")) (rw (nil-append (w ++ "\"")) refl))))

cut_at-bare :
    (key rest before behind : String)
    → every is_bare_code key ≡ true
    → cut_at 61 rest ≡ some (before, behind)
    → cut_at 61 (key ++ rest) ≡ some (key ++ before, behind)
unfolding every cut_at
cut_at-bare String.[] rest before behind h e = rw (nil-append rest, nil-append before) e
cut_at-bare (String.◌∷◌ c s) rest before behind h e =
    let ih = cut_at-bare s rest before behind (and_right (is_bare_code (code c)) _ h) e in
    let other = bare_no_equals c (and_left (is_bare_code (code c)) _ h) in
    rw (cons-append c s rest, cons-append c s before) (rw (cut_at, other, ih) refl)

before_hash-inline : (w : String) → is_inline w ≡ true → before_hash (w ++ "\"") ≡ w ++ "\""
unfolding is_inline every before_hash
before_hash-inline String.[] h = refl
before_hash-inline (String.◌∷◌ c s) h =
    let ih = before_hash-inline s (and_right (is_inline_code (code c)) _ h) in
    let other = inline_no_hash c (and_left (is_inline_code (code c)) _ h) in
    rw (cons-append c s "\"") (rw (before_hash, other, ih) refl)

kept : (b : Bool) (x y : String) → (if b && false then x else y) ≡ y
kept true x y = refl
kept false x y = refl

trim_right-quoted : (w : String) → trim_right (w ++ "\"") ≡ w ++ "\""
unfolding trim_right
trim_right-quoted String.[] = refl
trim_right-quoted (String.◌∷◌ c s) =
    rw (cons-append c s "\"")
      (rw (trim_right, trim_right-quoted s, quoted_not_blank s) (kept (is_space c) _ _))

drop_last-quoted : (w : String) → drop_last (w ++ "\"") ≡ w
unfolding drop_last
drop_last-quoted String.[] = refl
drop_last-quoted (String.◌∷◌ c s) =
    rw (cons-append c s "\"") (rw (drop_last, quoted_not_blank s, drop_last-quoted s) refl)

ends-quoted : (w : String) → ends 34 (w ++ "\"") ≡ true
unfolding ends
ends-quoted String.[] = refl
ends-quoted (String.◌∷◌ c s) =
    rw (cons-append c s "\"") (rw (ends, quoted_not_blank s) (ends-quoted s))

-- The line is read as one that assigns the key, and its value as the text between the quotes.
trim_space-key : (key : String) → is_bare key ≡ true → trim_space (key ++ " ") ≡ key
unfolding is_bare every
trim_space-key String.[] h = absurd (ground (arith, h))
trim_space-key (String.◌∷◌ c s) h =
    let bare = and_right (not (String.◌∷◌ c s == "")) _ h in
    rw (cons-append c s " ") (
      trim_space-bare c (s ++ " ") (and_left (is_bare_code (code c)) _ bare)
      ∙ ap (λ t. String.◌∷◌ c t) (trim_right-bare s (and_right (is_bare_code (code c)) _ bare)))

pub assigned-assignment :
    (key value : String)
    → is_bare key ≡ true
    → assigned key (assignment key value) ≡ some (spaced (escape_toml_string value))
unfolding assigned assignment is_bare
assigned-assignment key value h =
    let w = escape_toml_string value in
    let cut =
      cut_at-bare key (" = \"" ++ w ++ "\"") " " (spaced w) (and_right (not (key == "")) _ h)
        (cut_at-equals w) in
    rw (cut, trim_space-key key h, eq_refl key) refl

bare_first :
    (key rest : String)
    → is_bare key ≡ true
    → (is_skipped (trim_space (key ++ rest)) ≡ false)
      × (is_header (trim_space (key ++ rest)) ≡ false)
unfolding is_bare every is_skipped is_header begins
bare_first String.[] rest h = absurd (ground (arith, h))
bare_first (String.◌∷◌ c s) rest h =
    let bare = and_left (is_bare_code (code c)) _ (and_right (not (String.◌∷◌ c s == "")) _ h) in
    rw (cons-append c s rest) (
      rw (trim_space-bare c (s ++ rest) bare)
        (ground (arith, cons_not_blank c (trim_right (s ++ rest)), bare), ground (arith, bare)))

pub assignment-shown :
    (key value : String)
    → is_bare key ≡ true
    → (is_skipped (trim_space (assignment key value)) ≡ false)
      × (is_header (trim_space (assignment key value)) ≡ false)
unfolding assignment
assignment-shown key value h = bare_first key _ h

trim_space-quoted : (w : String) → trim_space (quoted w) ≡ quoted w
unfolding trim_space trim_left trim_right
trim_space-quoted w = rw (trim_right-quoted w) refl

pub trim_space-spaced :
    (w : String) → is_inline w ≡ true → trim_space (before_hash (spaced w)) ≡ quoted w
unfolding before_hash trim_space trim_left
trim_space-spaced w h = rw (before_hash-inline w h) (trim_space-quoted w)

pub parse_toml_string_value-quoted : (w : String) → parse_toml_string_value (quoted w) ≡ w
unfolding parse_toml_string_value
parse_toml_string_value-quoted w =
    rw (trim_space-quoted w) (rw (ends-quoted w) (drop_last-quoted w))
