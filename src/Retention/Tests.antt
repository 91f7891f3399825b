-- ===== src/Retention/Tests.antt =====
-- A concrete pass over items of a repository.
use nana.Prelude.{
  ℕ, pos, ◌+◌, ◌≤◌, ◌%◌, ◌-◌, String, true, false, none, some, List, [], ◌∷◌, ◌≡◌, ◌⊎◌, refl, arith,
  lookup, length, trim_space, trim_left, trim_right, is_space, leb, ltb, if◌then◌else◌,
}
use nana.Retention.Days.{
  Settings, max_days, normalize_days, resolved_days, resolved_days-normalize_days,
}
use nana.Retention.Items.{
  Item, second, mark_deleted, maintain_items, change_of, is_due, timestamp_expired,
  retention_window, Report, total, empty_report, State, Maintained, maintain_state,
}
use nana.Retention.Passes.{pass, is_map, dismissed-gone}
use nana.Retention.Counted.{expires, count_items}
use nana.Retention.Totals.{maintain_state-again, maintain_state-total}

abbrev old_item : Item
old_item = record {
  status = " dismissed";
  deleted_from_status = "";
  deleted_at = none;
  created_at = none;
  updated_at = some 5;
}

abbrev open_item : Item
open_item = record old_item { status = "open" }

abbrev jobs : List (String × Item)
jobs = ("a", open_item) ∷ ("b", old_item) ∷ []

jobs_hold :
    (is_map jobs ≡ true)
    × (lookup "b" jobs ≡ some old_item)
    × (trim_space old_item.status ≡ "dismissed")
unfolding lookup trim_space trim_left trim_right is_space
jobs_hold = (refl, refl, refl)

dismissed-gone_example :
    (lookup "b" (pass 99 (some 20) (some 10) jobs)
      ≡ (if leb (5 + 20) 99 then some (mark_deleted 99 old_item) else some old_item))
    × (lookup "b" (pass 99 (some 20) (some 10) (pass 30 (some 20) (some 10) jobs))
        ≡ (if leb ((30 - 30 % second) + 10) 99 then none else some (mark_deleted 30 old_item)))
dismissed-gone_example =
    dismissed-gone jobs "b" old_item 5 20 10 30 99 jobs_hold.0 jobs_hold.1 jobs_hold.2 refl
      (omega arith)

abbrev settings : Settings
settings = record { dismissed_days = some (pos 5000); deleted_days = none }

abbrev state : State
state = record { scout_jobs = jobs; findings = ("c", old_item) ∷ [] }

-- A hundred years on.
abbrev late : ℕ
late = 3155760000000000000

two_reported : total (Maintained.report (maintain_state (some settings) late state)) ≡ 2
unfolding maintain_state maintain_items change_of is_due timestamp_expired retention_window total
    resolved_days trim_space trim_left trim_right is_space
two_reported = refl

maintain_state-again_example :
    maintain_state
      (some settings)
      late
      (Maintained.state (maintain_state (some settings) late state))
    ≡ record {
      state = Maintained.state (maintain_state (some settings) late state);
      report = empty_report;
      updated = false;
    }
maintain_state-again_example = maintain_state-again (some settings) late state

abbrev late_pass : Maintained
late_pass = maintain_state (some settings) late state

maintain_state-total_example :
    let dismissed = resolved_days (some (pos 5000)) in
    let deleted = resolved_days none in
    (Report.scout_items_marked_deleted late_pass.report
      ≡ count_items (expires "dismissed" dismissed late) jobs)
    × (Report.scout_items_purged late_pass.report
        ≡ count_items (expires "deleted" deleted late) jobs)
    × (Report.findings_marked_deleted late_pass.report
        ≡ count_items (expires "dismissed" dismissed late) state.findings)
    × (Report.findings_purged late_pass.report
        ≡ count_items (expires "deleted" deleted late) state.findings)
    × (length (State.scout_jobs late_pass.state) + Report.scout_items_purged late_pass.report ≡ 2)
    × (length (State.findings late_pass.state) + Report.findings_purged late_pass.report ≡ 1)
    × (late_pass.updated ≡ ltb 0 (total late_pass.report))
maintain_state-total_example = maintain_state-total (some settings) late state

resolved_days-normalize_days_example :
    (resolved_days (some (pos 7)) ≤ max_days)
    × (normalize_days (pos (resolved_days (some (pos 7)))) ≡ some (resolved_days (some (pos 7))))
    × ((normalize_days (pos 7) ≡ none)
        ⊎ (normalize_days (pos 7) ≡ some (resolved_days (some (pos 7)))))
resolved_days-normalize_days_example = resolved_days-normalize_days (pos 7)
