-- ===== src/Queue/Labels.antt =====
-- The priority that the labels of an issue give it, and one that stays when its label is gone.
use nana.Prelude.{
  ℕ, ℤ, pos, negsuc, trim_left, trim_right, is_space, ◌≤◌, String, Bool, true, false, ◌&&◌, ◌||◌,
  not, Option, none, some, List, [], ◌∷◌, ◌==◌, eqb, leb, ltb, if◌then◌else◌, trim_space, ◌≡◌, ◌⊎◌,
  inl, inr, refl, sym, ap, ◌∙◌, arith, Bool-cases,
}
use nana.Queue.Priority.{
  Issue, label_priority, lower_of, best_priority, manual_priority_of, override_of,
  has_fresh_priority, effective_priority, kept_priority, resolve_priority, or_five, valid_priority,
}

abbrev is_some_of : ℕ → Option ℕ → Bool
is_some_of p none = false
is_some_of p (some n) = eqb p n

abbrev is_at_least : ℕ → Option ℕ → Bool
is_at_least p none = true
is_at_least p (some n) = leb p n

-- One of the labels is the priority.
abbrev pub has_priority : ℕ → List String → Bool
has_priority p [] = false
has_priority p (label ∷ labels) =
    let rest = has_priority p labels in is_some_of p (label_priority (trim_space label)) || rest

-- No label is a more urgent priority.
abbrev pub none_below : ℕ → List String → Bool
none_below p [] = true
none_below p (label ∷ labels) =
    let rest = none_below p labels in is_at_least p (label_priority (trim_space label)) && rest

best_priority-bound : (best : ℕ) (labels : List String) → best_priority best labels ≤ best
unfolding best_priority
best_priority-bound best [] = omega arith
best_priority-bound best (label ∷ labels) =
    let ih = best_priority-bound (lower_of (label_priority (trim_space label)) best) labels in
    ground (arith, ih)

best_priority-none_below :
    (best : ℕ) (labels : List String) (p : ℕ)
    → p ≤ best_priority best labels
    → none_below p labels ≡ true
unfolding best_priority
best_priority-none_below best [] p h = refl
best_priority-none_below best (label ∷ labels) p h =
    let bound = best_priority-bound (lower_of (label_priority (trim_space label)) best) labels in
    let ih =
      best_priority-none_below (lower_of (label_priority (trim_space label)) best) labels p h in
    ground (arith, ih, bound, h)

best_priority-has_priority :
    (best : ℕ) (labels : List String)
    → (best_priority best labels ≡ best) ⊎ (has_priority (best_priority best labels) labels ≡ true)
unfolding best_priority
best_priority-has_priority best [] = inl refl
best_priority-has_priority best (label ∷ labels) =
    elim (best_priority-has_priority (lower_of (label_priority (trim_space label)) best) labels) [
      | inr h ↦ inr (ground (arith, h))
      | inl h ↦ from_label (label_priority (trim_space label)) _ h
    ]
  where
    from_label :
        (o : Option ℕ) (n : ℕ)
        → n ≡ lower_of o best
        → (n ≡ best) ⊎ ((is_some_of n o || has_priority n labels) ≡ true)
    from_label none n h = inl h
    from_label (some parsed) n h = elim (Bool-cases (ltb parsed best)) [
      | inl e ↦ inr (ground (arith, h, e))
      | inr e ↦ inl (ground (arith, h, e))
    ]

-- The priority that the labels give is one of them, from P0 to P5, and none of them is more urgent.
pub manual_priority_of-least :
    (labels : List String) (p : ℕ)
    → manual_priority_of labels ≡ some p
    → (p ≤ 5) × (has_priority p labels ≡ true) × (none_below p labels ≡ true)
unfolding manual_priority_of
manual_priority_of-least labels p h =
    let bound = best_priority-bound 6 labels in
    let least = best_priority-none_below 6 labels p (ground (arith, h)) in
    elim (best_priority-has_priority 6 labels) [
      | inl e ↦ absurd (ground (arith, h, e))
      | inr there ↦ (ground (arith, h, bound), ground (arith, h, there), least)
    ]

valid_priority-or_five :
    (v : ℤ)
    → or_five (valid_priority (pos (or_five (valid_priority v)))) ≡ or_five (valid_priority v)
unfolding valid_priority
valid_priority-or_five (negsuc n) = refl
valid_priority-or_five (pos n) = elim (Bool-cases (leb n 5)) [
  | inl e ↦ rw e (rw e refl)
  | inr e ↦ rw e refl
]

kept_source :
    (b : Bool) (source : String)
    → source ≡ "manual_label"
    → (if b && source == "" then "triage" else source) ≡ "manual_label"
kept_source true source s = rw s refl
kept_source false source s = s

labelled-fresh :
    (issue : Issue) → issue.priority_source ≡ "manual_label" → has_fresh_priority issue ≡ true
unfolding has_fresh_priority trim_space trim_left trim_right is_space
labelled-fresh issue s = rw s refl

effective_priority-stored :
    (issue : Issue)
    → override_of issue ≡ none
    → effective_priority issue ≡ or_five (valid_priority issue.priority)
unfolding effective_priority
effective_priority-stored issue o = rw (effective_priority, o) refl

kept_priority-override :
    (existing : Issue) (labels : List String) (source_fingerprint : String)
    → override_of (kept_priority existing labels source_fingerprint) ≡ override_of existing
unfolding override_of kept_priority
kept_priority-override existing labels source_fingerprint = refl

kept_priority-effective :
    (existing : Issue) (labels : List String) (source_fingerprint : String)
    → override_of existing ≡ none
    → effective_priority (kept_priority existing labels source_fingerprint)
      ≡ effective_priority existing
unfolding kept_priority
kept_priority-effective existing labels source_fingerprint o =
    effective_priority-stored (kept_priority existing labels source_fingerprint)
      (kept_priority-override existing labels source_fingerprint ∙ o)
    ∙ valid_priority-or_five existing.priority
    ∙ sym (effective_priority-stored existing o)

kept_priority-source :
    (existing : Issue) (labels : List String) (source_fingerprint : String)
    → existing.priority_source ≡ "manual_label"
    → Issue.priority_source (kept_priority existing labels source_fingerprint) ≡ "manual_label"
unfolding kept_priority
kept_priority-source existing labels source_fingerprint s =
    kept_source (not (trim_space existing.triage_fingerprint == source_fingerprint))
      existing.priority_source s

resolve_priority-kept :
    (existing : Issue) (labels : List String) (source_fingerprint now : String)
    → override_of existing ≡ none
    → manual_priority_of labels ≡ none
    → resolve_priority existing labels source_fingerprint now
      ≡ kept_priority existing labels source_fingerprint
unfolding resolve_priority
resolve_priority-kept existing labels source_fingerprint now o m = rw (resolve_priority, o, m) refl

-- An issue whose priority came from a label, and has no override, keeps it as a fresh priority when
-- no label gives one any more, whatever its new text and labels: it is not triaged again.
pub resolve_priority-sticky :
    (existing : Issue) (labels : List String) (source_fingerprint now : String)
    → existing.priority_source ≡ "manual_label"
    → override_of existing ≡ none
    → manual_priority_of labels ≡ none
    → (has_fresh_priority (resolve_priority existing labels source_fingerprint now) ≡ true)
      × (effective_priority (resolve_priority existing labels source_fingerprint now)
          ≡ effective_priority existing)
resolve_priority-sticky existing labels source_fingerprint now s o m =
    let e = resolve_priority-kept existing labels source_fingerprint now o m in
    (
      ap has_fresh_priority e
          ∙ labelled-fresh (kept_priority existing labels source_fingerprint)
              (kept_priority-source existing labels source_fingerprint s),
      ap effective_priority e ∙ kept_priority-effective existing labels source_fingerprint o,
    )
