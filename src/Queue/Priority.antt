-- ===== src/Queue/Priority.antt =====
-- internal/gocli/start_work.go: startWorkManualPriority, startWorkResolvePriority and what reads their
-- results, with the automation modes of github_defaults.go.
use Prim.Native.Char.{code}
use nana.Prelude.{
  ℕ, ◌+◌, ◌-◌, ℤ, pos, negsuc, String, Bool, true, false, ◌&&◌, ◌||◌, not, Option, none, some, List,
  [], ◌∷◌, ◌==◌, eqb, leb, ltb, if◌then◌else◌, trim_space,
}
use Prim.Native.String.{◌++◌}
use nana.Scheduler.Triage.{start_work_priority_label}

-- startWorkIssueState, the fields that the priorities and the queue read. The time that its schedule
-- parses to stands for it.
pub record Issue : Type 0 where
  pub source_number : ℕ
  pub fork_number : ℕ
  pub state : String
  pub labels : List String
  pub work_type : String
  pub source_fingerprint : String
  pub priority : ℤ
  pub manual_priority : ℤ
  pub manual_priority_updated_at : String
  pub priority_source : String
  pub complexity : ℕ
  pub status : String
  pub triage_status : String
  pub triage_rationale : String
  pub triage_fingerprint : String
  pub triage_updated_at : String
  pub triage_error : String
  pub schedule_at : Option ℕ

-- unicode.ToLower, as far as its result is ASCII.
abbrev lower_code : ℕ → ℕ
lower_code n =
    if leb 65 n && leb n 90
    then n + 32
    else if eqb n 0x212a
    then 107
    else if eqb n 0x130
    then 105
    else n

-- Whether strings.ToLower of a text is a given one in ASCII.
unfoldable pub lowers_to : String → String → Bool
lowers_to String.[] String.[] = true
lowers_to String.[] (String.◌∷◌ d t) = false
lowers_to (String.◌∷◌ c s) String.[] = false
lowers_to (String.◌∷◌ c s) (String.◌∷◌ d t) =
    let rest = lowers_to s t in eqb (lower_code (code c)) (code d) && rest

-- A label that is P0 to P5 in upper case; no other letter than p and P has P as its upper case.
abbrev pub priority_digit : ℕ → Option ℕ
priority_digit n = if leb 48 n && leb n 53 then some (n - 48) else none

unfoldable pub label_priority : String → Option ℕ
label_priority (String.◌∷◌ c (String.◌∷◌ d String.[])) =
    if eqb (code c) 80 || eqb (code c) 112 then priority_digit (code d) else none
label_priority _ = none

abbrev pub lower_of : Option ℕ → ℕ → ℕ
lower_of none best = best
lower_of (some parsed) best = if ltb parsed best then parsed else best

unfoldable pub best_priority : ℕ → List String → ℕ
best_priority best [] = best
best_priority best (label ∷ labels) =
    best_priority (lower_of (label_priority (trim_space label)) best) labels

unfoldable pub manual_priority_of : List String → Option ℕ
manual_priority_of labels =
    let best = best_priority 6 labels in if eqb best 6 then none else some best

-- A priority that is one of P0 to P5.
unfoldable pub valid_priority : ℤ → Option ℕ
valid_priority (negsuc n) = none
valid_priority (pos n) = if leb n 5 then some n else none

unfoldable pub override_of : Issue → Option ℕ
override_of issue =
    if trim_space issue.manual_priority_updated_at == ""
    then none
    else valid_priority issue.manual_priority

abbrev pub or_five : Option ℕ → ℕ
or_five none = 5
or_five (some n) = n

unfoldable pub effective_priority : Issue → ℕ
effective_priority issue = elim (override_of issue) [
  | some n ↦ n
  | none ↦ or_five (valid_priority issue.priority)
]

unfoldable pub has_fresh_priority : Issue → Bool
has_fresh_priority issue =
    trim_space issue.priority_source == "manual_label"
    || trim_space issue.priority_source == "manual_override"
    || (issue.triage_status == "completed"
        && not (trim_space issue.source_fingerprint == "")
        && trim_space issue.triage_fingerprint == trim_space issue.source_fingerprint)

-- The seven results of startWorkResolvePriority, stored in the issue with the fingerprint and the labels
-- as by mirrorStartWorkIssues.
unfoldable pub with_priority : Issue → List String → String → ℕ → String → String → String → Issue
with_priority existing labels source_fingerprint priority source now rationale = record existing {
  labels = labels;
  source_fingerprint = source_fingerprint;
  priority = pos priority;
  priority_source = source;
  triage_status = "completed";
  triage_rationale = rationale;
  triage_fingerprint = source_fingerprint;
  triage_updated_at = now;
  triage_error = "";
}

abbrev pub triage_status_of : Bool → String → String
triage_status_of is_changed status =
    if is_changed
    then "queued"
    else if status == "running" || trim_space status == ""
    then "queued"
    else status

unfoldable pub kept_priority : Issue → List String → String → Issue
kept_priority existing labels source_fingerprint =
    let is_changed = not (trim_space existing.triage_fingerprint == source_fingerprint) in
    record existing {
      labels = labels;
      source_fingerprint = source_fingerprint;
      priority = pos (or_five (valid_priority existing.priority));
      priority_source =
          (if is_changed && existing.priority_source == ""
            then "triage"
            else existing.priority_source);
      triage_status = triage_status_of is_changed existing.triage_status;
      triage_error = (if is_changed then "" else existing.triage_error);
    }

unfoldable pub resolve_priority : Issue → List String → String → String → Issue
resolve_priority existing labels source_fingerprint now = elim (override_of existing) [
  | some n ↦
      with_priority existing labels source_fingerprint n "manual_override" now
        ("manual override " ++ start_work_priority_label n)
  | none ↦ elim (manual_priority_of labels) [
    | some n ↦
        with_priority existing labels source_fingerprint n "manual_label" now
          ("manual priority label " ++ start_work_priority_label n)
    | none ↦ kept_priority existing labels source_fingerprint
  ]
]
