-- ===== src/Toml/Blank.antt =====
-- A file of white space, in which no key is read.
use Prim.Native.Char.{Char, code}
use nana.Prelude.{
  String, Bool, true, false, ◌&&◌, none, List, [], ◌∷◌, ◌==◌, eqb, trim_space, trim_left,
  trim_right, is_space, cons_not_blank, ◌≡◌, inl, inr, refl, arith, Bool-cases, and_left, and_right,
}
use nana.Toml.Text.{replace_crlf, split_lines, onto_first}
use nana.Toml.{lines_of, is_skipped, read_lines}

abbrev all_space : String → Bool
all_space String.[] = true
all_space (String.◌∷◌ c s) = let rest = all_space s in is_space c && rest

abbrev all_blank : List String → Bool
all_blank [] = true
all_blank (line ∷ lines) = all_space line && all_blank lines

visible : (c : Char) (s : String) → is_space c ≡ false → (trim_space (String.◌∷◌ c s) == "") ≡ false
unfolding trim_space trim_left trim_right
visible c s e = rw e (rw e (cons_not_blank c (trim_right s)))

trim_space-all_space : (s : String) → (trim_space s == "") ≡ true → all_space s ≡ true
unfolding trim_space trim_left trim_right
trim_space-all_space String.[] h = refl
trim_space-all_space (String.◌∷◌ c s) h = elim (Bool-cases (is_space c)) [
  | inl e ↦ rw e (trim_space-all_space s (rw e at h))
  | inr e ↦ absurd (ground (arith, h, visible c s e))
]

all_space-trim_space : (s : String) → all_space s ≡ true → trim_space s ≡ ""
unfolding trim_space trim_left trim_right
all_space-trim_space String.[] h = refl
all_space-trim_space (String.◌∷◌ c s) h =
    rw (and_left (is_space c) _ h) (all_space-trim_space s (and_right (is_space c) _ h))

replace_crlf-all_space : (s : String) → all_space s ≡ true → all_space (replace_crlf s) ≡ true
unfolding replace_crlf
replace_crlf-all_space String.[] h = refl
replace_crlf-all_space (String.◌∷◌ c s) h = ground (arith, h, replace_crlf-all_space s)

split_lines-all_blank : (s : String) → all_space s ≡ true → all_blank (split_lines s) ≡ true
unfolding split_lines
split_lines-all_blank String.[] h = refl
split_lines-all_blank (String.◌∷◌ c s) h =
    let ih = split_lines-all_blank s (and_right (is_space c) _ h) in
    elim (Bool-cases (eqb (code c) 10)) [ inl e ↦ rw e ih | inr e ↦ rw e (onto (split_lines s) ih) ]
  where
    onto : (lines : List String) → all_blank lines ≡ true → all_blank (onto_first c lines) ≡ true
    onto [] a = ground (arith, h)
    onto (line ∷ lines) a = ground (arith, h, a)

read_lines-all_blank :
    (key : String) (lines : List String) → all_blank lines ≡ true → read_lines key true lines ≡ none
unfolding read_lines is_skipped
read_lines-all_blank key [] h = refl
read_lines-all_blank key (line ∷ lines) h =
    rw (all_space-trim_space line (and_left (all_space line) _ h))
      (read_lines-all_blank key lines (and_right (all_space line) _ h))

pub read_lines-blank :
    (key content : String)
    → (trim_space content == "") ≡ true
    → read_lines key true (lines_of content) ≡ none
unfolding lines_of
read_lines-blank key content h = read_lines-all_blank key _ (
    split_lines-all_blank (replace_crlf content)
      (replace_crlf-all_space content (trim_space-all_space content h)))
