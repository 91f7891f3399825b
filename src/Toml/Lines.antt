-- ===== src/Toml/Lines.antt =====
-- The loops of internal/gocli/toml.go over the lines of a file: what is read behind a line is replaced or
-- inserted.
use nana.Prelude.{
  String, Bool, true, false, Option, none, some, List, [], ◌∷◌, ◌==◌, trim_space, cut_at, ◌≡◌, inl,
  inr, refl, sym, ◌∙◌, arith, eq_iff, Bool-cases, Option-cases,
}
use nana.Toml.Text.{before_hash}
use nana.Toml.{
  is_skipped, is_header, assigned, value_if, read_lines, behind_line, replace_line, insert_line,
  upsert_lines,
}

-- A line assigns one key.
pub assigned_once :
    (key other line : String) (value : String)
    → (key == other) ≡ false
    → assigned key line ≡ some value
    → assigned other line ≡ none
unfolding assigned
assigned_once key other line value differs h = one (cut_at 61 line) h
  where
    one : (o : Option (String × String)) → value_if key o ≡ some value → value_if other o ≡ none
    one none e = refl
    one (some (name, v)) e = elim (Bool-cases (trim_space name == key)) [
      | inr m ↦ absurd (ground (arith, rw m at e))
      | inl m ↦ rw (rw (sym ((eq_iff (trim_space name) key).0 m)) at differs) refl
    ]

-- A line that assigns a key, and is neither a comment nor the header of a table.
module _ (key new value : String) (shown : is_skipped (trim_space new) ≡ false)
    (no_header : is_header (trim_space new) ≡ false) (gets : assigned key new ≡ some value) where
  abbrev answer : Option String
  answer = some (trim_space (before_hash value))

  read_lines-new : (lines : List String) → read_lines key true (new ∷ lines) ≡ answer
  unfolding read_lines
  read_lines-new lines = rw (shown, no_header, gets) refl

  abbrev Answers : Bool → Option (List String) → Type 0
  Answers top none = Unit {0}
  Answers top (some lines) = read_lines key top lines ≡ answer

  behind_line-Answers :
      (top under : Bool) (line : String) (o : Option (List String))
      → ((lines : List String) → read_lines key top (line ∷ lines) ≡ read_lines key under lines)
      → Answers under o
      → Answers top (behind_line line o)
  behind_line-Answers top under line none step a = tt
  behind_line-Answers top under line (some lines) step a = step lines ∙ a

  replace_line-Answers :
      (top : Bool) (lines : List String) → Answers top (replace_line key new top lines)
  unfolding replace_line read_lines
  replace_line-Answers top [] = tt
  replace_line-Answers false (line ∷ lines) = elim (Bool-cases (is_skipped (trim_space line))) [
    | inl s ↦ rw s (
        behind_line-Answers false false line _ (λ ls. rw s refl) (replace_line-Answers false lines))
    | inr s ↦ elim (Bool-cases (is_header (trim_space line))) [
      | inl h ↦
          rw (s, h)
            (behind_line-Answers false false line _ (λ ls. rw (s, h) refl)
              (replace_line-Answers false lines))
      | inr h ↦
          rw (s, h)
            (behind_line-Answers false false line _ (λ ls. rw (s, h) refl)
              (replace_line-Answers false lines))
    ]
  ]
  replace_line-Answers true (line ∷ lines) = elim (Bool-cases (is_skipped (trim_space line))) [
    | inl s ↦
        rw s
          (behind_line-Answers true true line _ (λ ls. rw s refl) (replace_line-Answers true lines))
    | inr s ↦ elim (Bool-cases (is_header (trim_space line))) [
      | inl h ↦
          rw (s, h)
            (behind_line-Answers true false line _ (λ ls. rw (s, h) refl)
              (replace_line-Answers false lines))
      | inr h ↦ elim (Option-cases (assigned key line)) [
        | inl a ↦
            rw (s, h, a)
              (behind_line-Answers true true line _ (λ ls. rw (s, h, a) refl)
                (replace_line-Answers true lines))
        | inr a ↦ rw (s, h, a.1) (read_lines-new lines)
      ]
    ]
  ]

  behind_line-none :
      (line : String) (o : Option (List String)) → behind_line line o ≡ none → o ≡ none
  behind_line-none line none e = refl
  behind_line-none line (some ls) e = absurd (ground (arith, e))

  insert_line-Answers :
      (lines : List String)
      → replace_line key new true lines ≡ none
      → read_lines key true (insert_line new lines) ≡ answer
  unfolding insert_line replace_line read_lines
  insert_line-Answers [] none_there = read_lines-new []
  insert_line-Answers (line ∷ lines) none_there = elim (Bool-cases (is_header (trim_space line))) [
    | inl h ↦ rw h (read_lines-new (line ∷ lines))
    | inr h ↦ elim (Bool-cases (is_skipped (trim_space line))) [
      | inl s ↦ rw (h, s) (insert_line-Answers lines (behind_line-none line _ (rw s at none_there)))
      | inr s ↦ elim (Option-cases (assigned key line)) [
        | inl a ↦ rw h (
            rw (s, h, a)
              (insert_line-Answers lines (behind_line-none line _ (rw (s, h, a) at none_there))))
        | inr a ↦ absurd (ground (arith, rw (s, h, a.1) at none_there))
      ]
    ]
  ]

  pub upsert_lines-Answers :
      (lines : List String) → read_lines key true (upsert_lines key new lines) ≡ answer
  unfolding upsert_lines
  upsert_lines-Answers lines = elim (Option-cases (replace_line key new true lines)) [
    | inl e ↦ rw (upsert_lines, e) (insert_line-Answers lines e)
    | inr e ↦ rw (upsert_lines, e.1) (rw e.1 at (replace_line-Answers true lines))
  ]

-- No line behind the header of a table is read.
read_lines-table : (key : String) (lines : List String) → read_lines key false lines ≡ none
unfolding read_lines
read_lines-table key [] = refl
read_lines-table key (line ∷ lines) = ground (arith, read_lines-table key lines)

read_lines-under :
    (key line : String) (rs bs : List String)
    → read_lines key true rs ≡ read_lines key true bs
    → read_lines key true (line ∷ rs) ≡ read_lines key true (line ∷ bs)
unfolding read_lines
read_lines-under key line rs bs e = elim (Option-cases (assigned key line)) [
  | inl a ↦ rw (a, read_lines-table key rs, read_lines-table key bs, e) refl
  | inr a ↦ rw (a.1, read_lines-table key rs, read_lines-table key bs, e) refl
]

-- Of a key that the new line does not assign, what is read stays.
module _ (key new other : String) (differs : (key == other) ≡ false)
    (gets : assigned other new ≡ none) (shown : is_skipped (trim_space new) ≡ false)
    (no_header : is_header (trim_space new) ≡ false) where
  read_lines-other :
      (top : Bool) (lines : List String)
      → read_lines other top (new ∷ lines) ≡ read_lines other top lines
  unfolding read_lines
  read_lines-other true lines = rw (shown, no_header, gets) refl
  read_lines-other false lines = rw (shown, no_header) refl

  abbrev Keeps : Bool → List String → Option (List String) → Type 0
  Keeps top lines none = Unit {0}
  Keeps top lines (some replaced) = read_lines other top replaced ≡ read_lines other top lines

  behind_line-Keeps :
      (top under : Bool) (line : String) (lines : List String) (o : Option (List String))
      → ((replaced : List String)
          → read_lines other under replaced ≡ read_lines other under lines
          → read_lines other top (line ∷ replaced) ≡ read_lines other top (line ∷ lines))
      → Keeps under lines o
      → Keeps top (line ∷ lines) (behind_line line o)
  behind_line-Keeps top under line lines none step a = tt
  behind_line-Keeps top under line lines (some replaced) step a = step replaced a

  replace_line-Keeps :
      (top : Bool) (lines : List String) → Keeps top lines (replace_line key new top lines)
  unfolding replace_line read_lines
  replace_line-Keeps false lines = table (replace_line key new false lines)
    where
      table : (o : Option (List String)) → Keeps false lines o
      table none = tt
      table (some replaced) = read_lines-table other replaced ∙ sym (read_lines-table other lines)
  replace_line-Keeps true [] = tt
  replace_line-Keeps true (line ∷ lines) = elim (Bool-cases (is_skipped (trim_space line))) [
    | inl s ↦
        rw s (
          behind_line-Keeps true true line lines _ (λ rs e. rw s e) (replace_line-Keeps true lines))
    | inr s ↦ elim (Bool-cases (is_header (trim_space line))) [
      | inl h ↦
          rw (s, h)
            (behind_line-Keeps true false line lines _ (λ rs e. rw (s, h) e)
              (replace_line-Keeps false lines))
      | inr h ↦ elim (Option-cases (assigned key line)) [
        | inl a ↦
            rw (s, h, a)
              (behind_line-Keeps true true line lines _
                (λ rs e. read_lines-under other line rs lines e) (replace_line-Keeps true lines))
        | inr a ↦
            rw (s, h, a.1)
              (read_lines-other true lines
                ∙ sym (rw (s, h, assigned_once key other line a.0 differs a.1) refl))
      ]
    ]
  ]

  insert_line-Keeps :
      (lines : List String)
      → read_lines other true (insert_line new lines) ≡ read_lines other true lines
  unfolding insert_line
  insert_line-Keeps [] = read_lines-other true []
  insert_line-Keeps (line ∷ lines) = elim (Bool-cases (is_header (trim_space line))) [
    | inl h ↦ rw h (read_lines-other true (line ∷ lines))
    | inr h ↦
        rw h (read_lines-under other line (insert_line new lines) lines (insert_line-Keeps lines))
  ]

  pub upsert_lines-Keeps :
      (lines : List String)
      → read_lines other true (upsert_lines key new lines) ≡ read_lines other true lines
  unfolding upsert_lines
  upsert_lines-Keeps lines = elim (Option-cases (replace_line key new true lines)) [
    | inl e ↦ rw (upsert_lines, e) (insert_line-Keeps lines)
    | inr e ↦ rw (upsert_lines, e.1) (rw e.1 at (replace_line-Keeps true lines))
  ]
