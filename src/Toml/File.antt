-- ===== src/Toml/File.antt =====
-- The lines of the file that UpsertTopLevelTomlString writes.
use Prim.Native.Char.{Char, code}
use Prim.Native.String.{◌++◌}
use text.Mathlib.TextLemmas.{cons-append, nil-append, append-nil, append_assoc}
use nana.Prelude.{
  Option-cases, ℕ, String, Bool, true, false, not, ◌&&◌, ◌||◌, List, [], ◌∷◌, eqb, trim_space, join,
  Option, ◌≡◌, inl, inr, refl, sym, ap, ◌∙◌, arith, Bool-cases, and_left, and_right,
}
use mathlib.Core.List.{◌++◌ as append}
use nana.Toml.Text.{begins, replace_crlf, split_lines, onto_first, ends_with}
use nana.Prelude.{none, some}
use nana.Toml.{
  is_header, behind_line, replace_line, insert_line, upsert_lines, lines_of, read_lines, assigned,
  with_line_end, is_skipped,
}
use nana.Toml.Assigned.{every}

-- No line end is in a line.
abbrev pub is_line_code : ℕ → Bool
is_line_code n = not (eqb n 10 || eqb n 13)

abbrev pub all_lines : List String → Bool
all_lines [] = true
all_lines (line ∷ lines) = every is_line_code line && all_lines lines

-- The two line ends.
abbrev pub eol_of : Bool → String
eol_of true = "\r\n"
eol_of false = "\n"

no_return : (c : Char) → is_line_code (code c) ≡ true → eqb (code c) 13 ≡ false
no_return c h = ground (arith, h)

no_feed : (c : Char) → is_line_code (code c) ≡ true → eqb (code c) 10 ≡ false
no_feed c h = ground (arith, h)

lines_of-line : (line : String) → every is_line_code line ≡ true → lines_of line ≡ line ∷ []
unfolding lines_of replace_crlf split_lines every
lines_of-line String.[] h = refl
lines_of-line (String.◌∷◌ c s) h =
    let ih = lines_of-line s (and_right (is_line_code (code c)) _ h) in
    rw (replace_crlf, no_return c (and_left (is_line_code (code c)) _ h))
      (rw (split_lines, no_feed c (and_left (is_line_code (code c)) _ h)) (rw ih refl))

lines_of-first :
    (crlf : Bool) (line rest : String)
    → every is_line_code line ≡ true
    → lines_of (line ++ eol_of crlf ++ rest) ≡ line ∷ lines_of rest
unfolding lines_of replace_crlf split_lines every begins
lines_of-first true String.[] rest h =
    rw (nil-append ("\r\n" ++ rest))
      (rw (cons-append "\r" "\n" rest) (rw (cons-append "\n" "" rest) (rw (nil-append rest) refl)))
lines_of-first false String.[] rest h =
    rw (nil-append ("\n" ++ rest)) (rw (cons-append "\n" "" rest) (rw (nil-append rest) refl))
lines_of-first crlf (String.◌∷◌ c s) rest h =
    let ih = lines_of-first crlf s rest (and_right (is_line_code (code c)) _ h) in
    rw (cons-append c s (eol_of crlf ++ rest)) (
      rw (replace_crlf, no_return c (and_left (is_line_code (code c)) _ h))
        (rw (split_lines, no_feed c (and_left (is_line_code (code c)) _ h)) (rw ih refl)))

lines_of-join :
    (crlf : Bool) (line : String) (lines : List String)
    → all_lines (line ∷ lines) ≡ true
    → lines_of (join (eol_of crlf) (line ∷ lines)) ≡ line ∷ lines
unfolding join
lines_of-join crlf line [] h = lines_of-line line (ground (arith, h))
lines_of-join crlf line (next ∷ lines) h =
    lines_of-first crlf line (join (eol_of crlf) (next ∷ lines))
      (and_left (every is_line_code line) _ h)
    ∙ ap (λ ls. line ∷ ls) (lines_of-join crlf next lines (and_right (every is_line_code line) _ h))

-- Behind a last line end there is one more line, which is blank.
lines_of-join_end :
    (crlf : Bool) (line : String) (lines : List String)
    → all_lines (line ∷ lines) ≡ true
    → lines_of (join (eol_of crlf) (line ∷ lines) ++ eol_of crlf) ≡ append (line ∷ lines) ("" ∷ [])
unfolding join lines_of split_lines replace_crlf
lines_of-join_end crlf line [] h =
    ap (λ e. lines_of (line ++ e)) (sym (append-nil (eol_of crlf)))
    ∙ lines_of-first crlf line "" (and_left (every is_line_code line) _ h)
lines_of-join_end crlf line (next ∷ lines) h =
    let joined = join (eol_of crlf) (next ∷ lines) in
    ap lines_of (
      append_assoc line (eol_of crlf ++ joined) (eol_of crlf)
      ∙ ap (λ t. line ++ t) (append_assoc (eol_of crlf) joined (eol_of crlf)))
    ∙ lines_of-first crlf line (joined ++ eol_of crlf) (and_left (every is_line_code line) _ h)
    ∙ ap (λ ls. line ∷ ls)
        (lines_of-join_end crlf next lines (and_right (every is_line_code line) _ h))

read_lines-blank_end :
    (key : String) (top : Bool) (lines : List String)
    → read_lines key top (append lines ("" ∷ [])) ≡ read_lines key top lines
unfolding read_lines is_skipped trim_space
read_lines-blank_end key top [] = refl
read_lines-blank_end key top (line ∷ lines) = elim (Option-cases (assigned key line)) [
  | inl a ↦ rw (a, read_lines-blank_end key top lines, read_lines-blank_end key false lines) refl
  | inr a ↦ rw (a.1, read_lines-blank_end key top lines, read_lines-blank_end key false lines) refl
]

-- What a file that ends as the code ends it is read as.
read_lines-with_line_end :
    (key : String) (crlf : Bool) (line : String) (lines : List String)
    → all_lines (line ∷ lines) ≡ true
    → read_lines key true
        (lines_of (with_line_end (eol_of crlf) (join (eol_of crlf) (line ∷ lines))))
      ≡ read_lines key true (line ∷ lines)
unfolding with_line_end
read_lines-with_line_end key crlf line lines h =
    elim (Bool-cases (ends_with (eol_of crlf) (join (eol_of crlf) (line ∷ lines)))) [
      | inl e ↦ rw e (ap (λ ls. read_lines key true ls) (lines_of-join crlf line lines h))
      | inr e ↦ rw e (
          ap (λ ls. read_lines key true ls) (lines_of-join_end crlf line lines h)
          ∙ read_lines-blank_end key true (line ∷ lines))
    ]

pub read_lines-written :
    (key : String) (crlf : Bool) (lines : List String)
    → all_lines lines ≡ true
    → read_lines key true (lines_of (with_line_end (eol_of crlf) (join (eol_of crlf) lines)))
      ≡ read_lines key true lines
unfolding with_line_end join ends_with lines_of split_lines replace_crlf read_lines is_skipped
    trim_space begins
read_lines-written key true [] h = refl
read_lines-written key false [] h = refl
read_lines-written key crlf (line ∷ lines) h = read_lines-with_line_end key crlf line lines h

pub read_lines-one :
    (key : String) (crlf : Bool) (line : String)
    → every is_line_code line ≡ true
    → read_lines key true (lines_of (line ++ eol_of crlf)) ≡ read_lines key true (line ∷ [])
unfolding join
read_lines-one key crlf line h =
    ap (λ ls. read_lines key true ls) (lines_of-join_end crlf line [] (ground (arith, h)))
    ∙ read_lines-blank_end key true (line ∷ [])

-- The lines of a file in which a carriage return stands only in front of a line feed.
abbrev pub is_no_return : ℕ → Bool
is_no_return n = not (eqb n 13)

pub split_lines-all_lines :
    (s : String) → every is_no_return s ≡ true → all_lines (split_lines s) ≡ true
unfolding split_lines every
split_lines-all_lines String.[] h = refl
split_lines-all_lines (String.◌∷◌ c s) h =
    let ih = split_lines-all_lines s (and_right (is_no_return (code c)) _ h) in
    elim (Bool-cases (eqb (code c) 10)) [
      | inl e ↦ rw e ih
      | inr e ↦ rw e (onto_first-all_lines c (split_lines s) (ground (arith, e, h)) ih)
    ]
  where
    onto_first-all_lines :
        (c : Char) (lines : List String)
        → is_line_code (code c) ≡ true
        → all_lines lines ≡ true
        → all_lines (onto_first c lines) ≡ true
    onto_first-all_lines c [] l a = ground (arith, l)
    onto_first-all_lines c (line ∷ lines) l a = ground (arith, l, a)

-- Writing a line into them keeps them lines.
module _ (key new : String) (one_line : every is_line_code new ≡ true) where
  abbrev AllLines : Option (List String) → Type 0
  AllLines none = Unit {0}
  AllLines (some lines) = all_lines lines ≡ true

  behind_line-AllLines :
      (line : String) (o : Option (List String))
      → every is_line_code line ≡ true
      → AllLines o
      → AllLines (behind_line line o)
  behind_line-AllLines line none l a = tt
  behind_line-AllLines line (some lines) l a = ground (arith, l, a)

  replace_line-AllLines :
      (top : Bool) (lines : List String)
      → all_lines lines ≡ true
      → AllLines (replace_line key new top lines)
  unfolding replace_line
  replace_line-AllLines top [] h = tt
  replace_line-AllLines top (line ∷ lines) h =
      let l = and_left (every is_line_code line) _ h in
      let ls = and_right (every is_line_code line) _ h in
      let same = behind_line-AllLines line _ l (replace_line-AllLines top lines ls) in
      let table = behind_line-AllLines line _ l (replace_line-AllLines false lines ls) in
      elim (Bool-cases (is_skipped (trim_space line))) [
        | inl s ↦ rw s same
        | inr s ↦ elim (Bool-cases (is_header (trim_space line))) [
          | inl i ↦ rw (s, i) table
          | inr i ↦ elim (Bool-cases (not top)) [
            | inl t ↦ rw (s, i, t) same
            | inr t ↦ elim (Option-cases (assigned key line)) [
              | inl a ↦ rw (s, i, t, a) same
              | inr a ↦ rw (s, i, t, a.1) (ground (arith, one_line, ls))
            ]
          ]
        ]
      ]

  insert_line-all_lines :
      (lines : List String) → all_lines lines ≡ true → all_lines (insert_line new lines) ≡ true
  unfolding insert_line
  insert_line-all_lines [] h = ground (arith, one_line)
  insert_line-all_lines (line ∷ lines) h = ground (arith, h, one_line, insert_line-all_lines lines)

  pub upsert_lines-all_lines :
      (lines : List String) → all_lines lines ≡ true → all_lines (upsert_lines key new lines) ≡ true
  unfolding upsert_lines
  upsert_lines-all_lines lines h = elim (Option-cases (replace_line key new true lines)) [
    | inl e ↦ rw (upsert_lines, e) (insert_line-all_lines lines h)
    | inr e ↦ rw (upsert_lines, e.1) (rw e.1 at (replace_line-AllLines true lines h))
  ]
