-- ===== src/Queue/Order.antt =====
-- internal/gocli/start_work.go: startWorkBuildImplementationQueue and its tests. slices.SortFunc is taken
-- as an insertion sort by the comparison that it is given.
use nana.Prelude.{
  ℕ, String, Bool, true, false, ◌&&◌, ◌||◌, not, Option, none, some, List, [], ◌∷◌, ◌==◌, eqb, leb,
  ltb, if◌then◌else◌, trim_space,
}
use nana.Queue.Priority.{Issue, lowers_to, effective_priority, has_fresh_priority}

pub data AutomationMode : Type 0 where
  manual automatic labeled : AutomationMode

-- normalizeGithubAutomationMode, where a mode that is not supported is the default, manual.
unfoldable pub automation_mode : String → AutomationMode
automation_mode value =
    let raw = trim_space value in
    if lowers_to raw "label" || lowers_to raw "labeled"
    then labeled
    else if lowers_to raw "auto"
    then automatic
    else manual

unfoldable pub is_automation_label : String → Bool
is_automation_label label =
    let raw = trim_space label in
    lowers_to raw "nana"
    || lowers_to raw "improvement-scout"
    || lowers_to raw "enhancement-scout"
    || lowers_to raw "backend-performance-scout"
    || lowers_to raw "ui-scout"

unfoldable pub has_automation_label : List String → Bool
has_automation_label [] = false
has_automation_label (label ∷ labels) =
    let rest = has_automation_label labels in is_automation_label label || rest

abbrev pub mode_allows : AutomationMode → List String → Bool
mode_allows automatic labels = true
mode_allows labeled labels = has_automation_label labels
mode_allows manual labels = false

unfoldable pub automation_allows_issue : String → List String → Bool
automation_allows_issue mode labels = mode_allows (automation_mode mode) labels

-- startWorkOptions, the fields that the queue reads.
pub record Options : Type 0 where
  pub implement_mode : String
  pub max_open_pr : ℕ

unfoldable pub is_ready_for_implementation : Options → Issue → Bool
is_ready_for_implementation options issue =
    issue.status == "queued"
    && issue.state == "open"
    && ltb 0 issue.fork_number
    && not (trim_space issue.work_type == "")
    && automation_allows_issue options.implement_mode issue.labels
    && has_fresh_priority issue

abbrev pub is_after : Option ℕ → ℕ → Bool
is_after none now = false
is_after (some scheduled) now = ltb now scheduled

unfoldable pub is_scheduled_for_future : ℕ → Issue → Bool
is_scheduled_for_future now issue = is_after issue.schedule_at now

unfoldable pub is_runnable : Options → ℕ → Issue → Bool
is_runnable options now issue =
    is_ready_for_implementation options issue && not (is_scheduled_for_future now issue)

unfoldable pub runnable : Options → ℕ → List Issue → List Issue
runnable options now [] = []
runnable options now (issue ∷ issues) =
    let rest = runnable options now issues in
    if is_runnable options now issue then issue ∷ rest else rest

-- The comparison is not positive.
unfoldable pub at_most : Issue → Issue → Bool
at_most a b =
    if not (eqb (effective_priority a) (effective_priority b))
    then ltb (effective_priority a) (effective_priority b)
    else if not (eqb a.complexity b.complexity)
    then ltb a.complexity b.complexity
    else leb a.source_number b.source_number

unfoldable pub insert : Issue → List Issue → List Issue
insert a [] = a ∷ []
insert a (b ∷ bs) = let rest = insert a bs in if at_most a b then a ∷ b ∷ bs else b ∷ rest

unfoldable pub sort_issues : List Issue → List Issue
sort_issues [] = []
sort_issues (a ∷ issues) = insert a (sort_issues issues)

pub data Queue : Type 0 where
  queued : List Issue → Queue
  manual_pick : Queue
  pr_cap_reached : ℕ → ℕ → Queue
  no_queued_issues : Queue

abbrev pub as_queue : List Issue → Queue
as_queue [] = no_queued_issues
as_queue (issue ∷ issues) = queued (sort_issues (issue ∷ issues))

unfoldable pub build_implementation_queue : Options → ℕ → ℕ → List Issue → Queue
build_implementation_queue options open_fork_prs now issues =
    if options.implement_mode == "manual"
    then manual_pick
    else if leb options.max_open_pr open_fork_prs
    then pr_cap_reached open_fork_prs options.max_open_pr
    else as_queue (runnable options now issues)
