-- ===== src/Queue/Wanted.antt =====
-- Which issues an implementation queue is for, and in which order, as the fields of the issues say.
use nana.Prelude.{
  ℕ, ℤ, pos, negsuc, String, Bool, true, false, ◌&&◌, ◌||◌, not, Option, none, some, ◌==◌, eqb, leb,
  ltb, if◌then◌else◌, trim_space, ◌≡◌, refl, arith, List, Bool-cases, inl, inr,
}
use nana.Queue.Priority.{
  Issue, lowers_to, valid_priority, override_of, or_five, effective_priority, has_fresh_priority,
}
use nana.Queue.Order.{
  manual, automatic, labeled, automation_mode, has_automation_label, mode_allows,
  automation_allows_issue, Options, is_ready_for_implementation, is_after, is_scheduled_for_future,
  is_runnable, at_most,
}

-- A mode of labels asks for one of the labels; of the others, the automatic one takes any issue.
abbrev is_allowed : String → List String → Bool
is_allowed mode labels =
    let text = trim_space mode in
    let by_label = lowers_to text "label" || lowers_to text "labeled" in
    (by_label && has_automation_label labels) || (not by_label && lowers_to text "auto")

-- The priority is a user's, or that of a triage of the issue as it is.
abbrev is_prioritized : Issue → Bool
is_prioritized issue =
    let source = trim_space issue.priority_source in
    let triaged = trim_space issue.triage_fingerprint in
    source == "manual_label"
    || source == "manual_override"
    || (issue.triage_status == "completed"
        && triaged == trim_space issue.source_fingerprint
        && not (trim_space issue.source_fingerprint == ""))

abbrev is_reached : ℕ → Option ℕ → Bool
is_reached now none = true
is_reached now (some scheduled) = leb scheduled now

-- An issue that is queued and open, with a fork issue, a type of work and a priority, allowed by the mode,
-- and not scheduled for later.
unfoldable pub is_wanted : Options → ℕ → Issue → Bool
is_wanted options now issue =
    is_reached now issue.schedule_at
    && is_prioritized issue
    && is_allowed options.implement_mode issue.labels
    && issue.status == "queued"
    && issue.state == "open"
    && leb 1 issue.fork_number
    && not (trim_space issue.work_type == "")

reached : (now : ℕ) (at : Option ℕ) → not (is_after at now) ≡ is_reached now at
reached now none = refl
reached now (some t) = ground arith

allowed :
    (mode : String) (labels : List String)
    → automation_allows_issue mode labels ≡ is_allowed mode labels
unfolding automation_allows_issue automation_mode
allowed mode labels =
    by_mode (lowers_to (trim_space mode) "label" || lowers_to (trim_space mode) "labeled")
      (lowers_to (trim_space mode) "auto")
  where
    by_mode :
        (by_label is_auto : Bool)
        → mode_allows (if by_label then labeled else if is_auto then automatic else manual) labels
          ≡ ((by_label && has_automation_label labels) || (not by_label && is_auto))
    by_mode true is_auto = ground arith
    by_mode false true = refl
    by_mode false false = refl

pub is_runnable-is_wanted :
    (options : Options) (now : ℕ) (issue : Issue)
    → is_runnable options now issue ≡ is_wanted options now issue
unfolding is_wanted is_runnable is_ready_for_implementation is_scheduled_for_future
    has_fresh_priority
is_runnable-is_wanted options now issue =
    rw (reached now issue.schedule_at, allowed options.implement_mode issue.labels) (ground arith)

-- A user's priority, if it was set and is one of 0 to 5, else that of the issue, if it is, else 5.
abbrev own_rank : ℤ → ℕ
own_rank (pos n) = if leb n 5 then n else 5
own_rank (negsuc n) = 5

abbrev rank : Bool → ℤ → ℤ → ℕ
rank true (pos n) own = if leb n 5 then n else own_rank own
rank true (negsuc n) own = own_rank own
rank false given own = own_rank own

abbrev pub rank_of : Issue → ℕ
rank_of issue =
    rank (not (trim_space issue.manual_priority_updated_at == "")) issue.manual_priority
      issue.priority

-- In front of another issue, or equal: by the rank, then the complexity, then the number.
abbrev pub precedes : Issue → Issue → Bool
precedes a b =
    ltb (rank_of a) (rank_of b)
    || (eqb (rank_of a) (rank_of b)
        && (ltb a.complexity b.complexity
            || (eqb a.complexity b.complexity && leb a.source_number b.source_number)))

own_values : (own : ℤ) → or_five (valid_priority own) ≡ own_rank own
unfolding valid_priority
own_values (negsuc n) = refl
own_values (pos n) = elim (Bool-cases (leb n 5)) [ inl e ↦ rw e refl | inr e ↦ rw e refl ]

effective : (issue : Issue) → effective_priority issue ≡ rank_of issue
unfolding effective_priority override_of valid_priority
effective issue =
    by_values (trim_space issue.manual_priority_updated_at == "") issue.manual_priority
      issue.priority
  where
    by_values :
        (blank : Bool) (given own : ℤ)
        → elim (if blank then none else valid_priority given) as (λ x. ℕ) [
          | some n ↦ n
          | none ↦ or_five (valid_priority own)
        ]
          ≡ rank (not blank) given own
    by_values true given own = own_values own
    by_values false (negsuc n) own = own_values own
    by_values false (pos n) own = elim (Bool-cases (leb n 5)) [
      | inl e ↦ rw e refl
      | inr e ↦ rw e (own_values own)
    ]

pub at_most-precedes : (a b : Issue) → at_most a b ≡ precedes a b
unfolding at_most
at_most-precedes a b = rw (effective a, effective b) (ground arith)
