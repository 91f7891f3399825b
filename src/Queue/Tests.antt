-- ===== src/Queue/Tests.antt =====
-- A concrete queue, and an issue that loses its label.
use nana.Prelude.{
  ℕ, pos, negsuc, String, Bool, true, ◌&&◌, none, some, List, [], ◌∷◌, ◌≡◌, refl, trim_space,
  trim_left, trim_right, is_space,
}
use nana.Queue.Priority.{
  Issue, lowers_to, label_priority, best_priority, manual_priority_of, valid_priority, override_of,
  effective_priority, has_fresh_priority, resolve_priority,
}
use nana.Queue.Order.{
  Options, automation_mode, is_automation_label, has_automation_label, automation_allows_issue,
  is_ready_for_implementation, is_scheduled_for_future, is_runnable, runnable, at_most, insert,
  sort_issues, queued, build_implementation_queue,
}
use nana.Queue.Wanted.{is_wanted}
use nana.Queue.Sorted.{count_if, is_ordered, build_implementation_queue-ordered}
use nana.Queue.Labels.{resolve_priority-sticky}

abbrev issue_of : ℕ → ℕ → List String → Issue
issue_of number priority labels = record {
  source_number = number;
  fork_number = 1;
  state = "open";
  labels = labels;
  work_type = "bug_fix";
  source_fingerprint = "f";
  priority = pos priority;
  manual_priority = negsuc 0;
  manual_priority_updated_at = "";
  priority_source = "manual_label";
  complexity = 3;
  status = "queued";
  triage_status = "completed";
  triage_rationale = "";
  triage_fingerprint = "f";
  triage_updated_at = "";
  triage_error = "";
  schedule_at = none;
}

-- The second has no label that the mode asks for.
abbrev issues : List Issue
issues = issue_of 7 2 ("Nana" ∷ []) ∷ issue_of 8 0 [] ∷ issue_of 9 1 ("UI-Scout" ∷ []) ∷ []

abbrev options : Options
options = record { implement_mode = "label"; max_open_pr = 2 }

abbrev built : List Issue
built = issue_of 9 1 ("UI-Scout" ∷ []) ∷ issue_of 7 2 ("Nana" ∷ []) ∷ []

issues_build : build_implementation_queue options 1 0 issues ≡ queued built
unfolding build_implementation_queue runnable is_runnable is_ready_for_implementation
    is_scheduled_for_future automation_allows_issue automation_mode has_automation_label
    is_automation_label lowers_to has_fresh_priority sort_issues insert at_most effective_priority
    override_of valid_priority trim_space trim_left trim_right is_space
issues_build = refl

build_implementation_queue-ordered_example :
    (is_ordered built ≡ true)
    × ((test : Issue → Bool)
        → count_if test built ≡ count_if (λ i. test i && is_wanted options 0 i) issues)
build_implementation_queue-ordered_example =
    build_implementation_queue-ordered options 1 0 issues built issues_build

abbrev some_labels : List String
some_labels = "bug" ∷ " p3" ∷ "P1" ∷ "P9" ∷ []

some_labels_give : manual_priority_of some_labels ≡ some 1
unfolding manual_priority_of best_priority label_priority trim_space trim_left trim_right is_space
some_labels_give = refl

bug_gives : manual_priority_of ("bug" ∷ []) ≡ none
unfolding manual_priority_of best_priority label_priority trim_space trim_left trim_right is_space
bug_gives = refl

not_overridden : override_of (issue_of 7 2 ("P2" ∷ [])) ≡ none
unfolding override_of trim_space trim_left trim_right is_space
not_overridden = refl

resolve_priority-sticky_example :
    (has_fresh_priority (resolve_priority (issue_of 7 2 ("P2" ∷ [])) ("bug" ∷ []) "g" "t") ≡ true)
    × (effective_priority (resolve_priority (issue_of 7 2 ("P2" ∷ [])) ("bug" ∷ []) "g" "t")
        ≡ effective_priority (issue_of 7 2 ("P2" ∷ [])))
resolve_priority-sticky_example =
    resolve_priority-sticky (issue_of 7 2 ("P2" ∷ [])) ("bug" ∷ []) "g" "t" refl not_overridden
      bug_gives
