-- ===== src/Toml/RoundTrip.antt =====
-- What ReadTopLevelTomlString reads behind UpsertTopLevelTomlString.
use Prim.Native.Char.{code}
use Prim.Native.String.{◌++◌}
use text.Mathlib.TextLemmas.{cons-append, nil-append}
use nana.Prelude.{
  ℕ, String, Bool, true, false, not, ◌||◌, [], ◌∷◌, ◌==◌, eqb, if◌then◌else◌, trim_space, ◌≡◌, inl,
  inr, refl, sym, ap, ◌∙◌, arith, Bool-cases, and_left, and_right,
}
use nana.Toml.Text.{has_crlf, replace_crlf, replace_all}
use nana.Toml.{
  parse_toml_string_value, lines_of, line_end, read_lines, parsed, read_top_level_toml_value,
  read_top_level_toml_string, escape_toml_string, assignment, replace_line, insert_line,
  upsert_lines, upsert_top_level_toml_string,
}
use nana.Toml.Blank.{read_lines-blank}
use nana.Toml.Lines.{assigned_once, upsert_lines-Keeps, upsert_lines-Answers}
use nana.Toml.Assigned.{
  every, is_bare_code, is_bare, is_inline_code, is_inline, spaced, assigned-assignment,
  assignment-shown, trim_space-spaced, parse_toml_string_value-quoted,
}
use nana.Toml.File.{
  is_line_code, eol_of, read_lines-written, upsert_lines-all_lines, read_lines-one, is_no_return,
  split_lines-all_lines,
}

line_end-eol_of : (content : String) → line_end content ≡ eol_of (has_crlf content)
unfolding line_end
line_end-eol_of content = by_test (has_crlf content)
  where
    by_test : (b : Bool) → (if b then "\r\n" else "\n") ≡ eol_of b
    by_test true = refl
    by_test false = refl

-- Characters of a text that is put together.
every-append :
    (p : ℕ → Bool) (s t : String) → every p s ≡ true → every p t ≡ true → every p (s ++ t) ≡ true
unfolding every
every-append p String.[] t a b = rw (nil-append t) b
every-append p (String.◌∷◌ c s) t a b = rw (cons-append c s t) (
    rw (every-append p s t (and_right (p (code c)) _ a) b)
      (ground (arith, and_left (p (code c)) _ a)))

every-implied :
    (p q : ℕ → Bool) (s : String)
    → ((n : ℕ) → p n ≡ true → q n ≡ true)
    → every p s ≡ true
    → every q s ≡ true
unfolding every
every-implied p q String.[] step a = refl
every-implied p q (String.◌∷◌ c s) step a =
    rw (step (code c) (and_left (p (code c)) _ a))
      (every-implied p q s step (and_right (p (code c)) _ a))

every-replace_all :
    (p : ℕ → Bool) (n : ℕ) (new s : String)
    → every p new ≡ true
    → every p s ≡ true
    → every p (replace_all n new s) ≡ true
unfolding every replace_all
every-replace_all p n new String.[] a b = refl
every-replace_all p n new (String.◌∷◌ c s) a b =
    let ih = every-replace_all p n new s a (and_right (p (code c)) _ b) in
    elim (Bool-cases (eqb (code c) n)) [
      | inl e ↦ rw e (every-append p new (replace_all n new s) a ih)
      | inr e ↦ rw e (rw ih (ground (arith, and_left (p (code c)) _ b)))
    ]

escape-is_inline :
    (value : String) → is_inline value ≡ true → is_inline (escape_toml_string value) ≡ true
unfolding is_inline escape_toml_string every
escape-is_inline value h =
    every-replace_all is_inline_code 34 "\\\"" (replace_all 92 "\\\\" value) refl
      (every-replace_all is_inline_code 92 "\\\\" value refl h)

-- A value with neither quotes nor backslashes is written as it is.
abbrev is_plain_code : ℕ → Bool
is_plain_code n = not (eqb n 34 || eqb n 92)

unfoldable pub is_plain : String → Bool
is_plain value = every is_plain_code value

replace_all-absent :
    (n : ℕ) (new s : String) → every (λ m. not (eqb m n)) s ≡ true → replace_all n new s ≡ s
unfolding replace_all every
replace_all-absent n new String.[] h = refl
replace_all-absent n new (String.◌∷◌ c s) h =
    rw
      (
        no_match (eqb (code c) n) (and_left (not (eqb (code c) n)) _ h),
        replace_all-absent n new s (and_right (not (eqb (code c) n)) _ h),
      )
      refl
  where
    no_match : (b : Bool) → not b ≡ true → b ≡ false
    no_match true h = sym h
    no_match false h = refl

escape-is_plain :
    (value : String)
    → escape_toml_string value ≡ (if is_plain value then value else escape_toml_string value)
unfolding escape_toml_string is_plain
escape-is_plain value = elim (Bool-cases (is_plain value)) [
  | inr e ↦ rw e refl
  | inl e ↦
      let no_backslash =
        replace_all-absent 92 "\\\\" value
          (every-implied is_plain_code (λ m. not (eqb m 92)) value (λ n h. ground (arith, h)) e) in
      let no_quote =
        replace_all-absent 34 "\\\"" value
          (every-implied is_plain_code (λ m. not (eqb m 34)) value (λ n h. ground (arith, h)) e) in
      rw e (rw no_backslash no_quote)
]

assignment-line :
    (key value : String)
    → is_bare key ≡ true
    → is_inline value ≡ true
    → every is_line_code (assignment key value) ≡ true
unfolding assignment is_bare is_inline every
assignment-line key value k v =
    let w = escape_toml_string value in
    every-append is_line_code key (" = \"" ++ w ++ "\"")
      (every-implied is_bare_code is_line_code key (λ n h. ground (arith, h))
        (and_right (not (key == "")) _ k))
      (every-append is_line_code " = \"" (w ++ "\"") refl (
        every-append is_line_code w "\""
          (every-implied is_inline_code is_line_code w (λ n h. ground (arith, h))
            (escape-is_inline value v))
          refl))

-- A file that is written and read again.
abbrev pub is_text : String → Bool
is_text content = every is_no_return (replace_crlf content)

read_lines-upsert :
    (content key value other : String)
    → is_text content ≡ true
    → is_bare key ≡ true
    → is_inline value ≡ true
    → (trim_space content == "") ≡ false
    → read_top_level_toml_value (upsert_top_level_toml_string content key value) other
      ≡ read_lines other true (upsert_lines key (assignment key value) (lines_of content))
unfolding read_top_level_toml_value upsert_top_level_toml_string lines_of
read_lines-upsert content key value other t k v filled =
    rw (filled, line_end-eol_of content)
      (read_lines-written other (has_crlf content) _ (
        upsert_lines-all_lines key (assignment key value) (assignment-line key value k v)
          (lines_of content) (split_lines-all_lines (replace_crlf content) t)))

read_lines-upsert_blank :
    (content key value other : String)
    → is_bare key ≡ true
    → is_inline value ≡ true
    → (trim_space content == "") ≡ true
    → read_top_level_toml_value (upsert_top_level_toml_string content key value) other
      ≡ read_lines other true (assignment key value ∷ [])
unfolding read_top_level_toml_value upsert_top_level_toml_string
read_lines-upsert_blank content key value other k v blank =
    rw (blank, line_end-eol_of content)
      (read_lines-one other (has_crlf content) (assignment key value)
        (assignment-line key value k v))

-- In a file in which a carriage return stands only in front of a line feed, a bare key that is given a value with
-- no `#` and no line end is read back as the value in which the backslashes and the quotes are escaped: as the value
-- itself if it has none of them.
pub read_top_level_toml_string-upsert :
    (content key value : String)
    → is_text content ≡ true
    → is_bare key ≡ true
    → is_inline value ≡ true
    → read_top_level_toml_string (upsert_top_level_toml_string content key value) key
      ≡ (if is_plain value then value else escape_toml_string value)
unfolding read_top_level_toml_string upsert_lines replace_line insert_line
read_top_level_toml_string-upsert content key value t k v =
    let w = escape_toml_string value in
    let shown = assignment-shown key value k in
    let answer =
      upsert_lines-Answers key (assignment key value) (spaced w) shown.0 shown.1
        (assigned-assignment key value k) in
    ap parsed (elim (Bool-cases (trim_space content == "")) [
      | inl blank ↦ read_lines-upsert_blank content key value key k v blank ∙ answer []
      | inr filled ↦
          read_lines-upsert content key value key t k v filled ∙ answer (lines_of content)
    ])
    ∙ ap parse_toml_string_value (trim_space-spaced w (escape-is_inline value v))
    ∙ parse_toml_string_value-quoted w
    ∙ escape-is_plain value

-- In such a file, any other key is read as before.
pub read_top_level_toml_value-upsert_other :
    (content key value other : String)
    → is_text content ≡ true
    → is_bare key ≡ true
    → is_inline value ≡ true
    → (key == other) ≡ false
    → read_top_level_toml_value (upsert_top_level_toml_string content key value) other
      ≡ read_top_level_toml_value content other
unfolding read_top_level_toml_value upsert_lines replace_line insert_line read_lines
read_top_level_toml_value-upsert_other content key value other t k v differs =
    let new = assignment key value in
    let shown = assignment-shown key value k in
    let gets =
      assigned_once key other new (spaced (escape_toml_string value)) differs
        (assigned-assignment key value k) in
    let kept = upsert_lines-Keeps key new other differs gets shown.0 shown.1 in
    elim (Bool-cases (trim_space content == "")) [
      | inl blank ↦
          read_lines-upsert_blank content key value other k v blank
          ∙ kept []
          ∙ sym (read_lines-blank other content blank)
      | inr filled ↦
          read_lines-upsert content key value other t k v filled ∙ kept (lines_of content)
    ]
