-- ===== src/Retention/Totals.antt =====
-- The counts of a pass of internal/gocli/dismissed_retention.go, and a pass behind another at the same
-- time.
use nana.Prelude.{
  ℕ, zero, suc, ◌+◌, ◌-◌, ◌%◌, ◌≤◌, ◌<◌, String, Bool, false, ◌||◌, Option, none, some, List, [],
  ◌∷◌, leb, ltb, if◌then◌else◌, length, trim_space, trim_left, trim_right, is_space, ◌≡◌, refl, ap,
  ◌∙◌, arith, inl, inr,
}
use native.Mathlib.Nat.{mod-lt}
use nana.Retention.Days.{Settings, resolved_days, dismissed_days_of, deleted_days_of}
use nana.Retention.Items.{
  Item, second, retention_window, is_due, mark_deleted, Change, stays, marked, purged, change_of,
  Tally, applied, no_changes, maintain_items, Report, total, empty_report, dismissed_window,
  deleted_window, State, Maintained, maintain_state,
}
use nana.Retention.Counted.{expires, count_items, maintain_items-IsTallied}
use nana.Retention.Passes.{Change-cases, change_of-deleted}

leb-late : (n r w s : ℕ) → r < s → s ≤ w → leb ((n - r) + w) n ≡ false
leb-late n r w s h k = ground (arith, h, k)

-- What a pass has marked is not due at the same time.
mark_deleted-still :
    (now : ℕ) (dismissed deleted : Option ℕ) (item : Item)
    → ((window : ℕ) → deleted ≡ some window → second ≤ window)
    → change_of now dismissed deleted (mark_deleted now item) ≡ stays
unfolding change_of is_due mark_deleted trim_space trim_left trim_right is_space
mark_deleted-still now dismissed none item long = refl
mark_deleted-still now dismissed (some w) item long =
    change_of-deleted now w now dismissed item
    ∙ if_late (leb ((now - now % second) + w) now)
        (leb-late now (now % second) w second (mod-lt now (omega arith)) (long w refl))
  where
    if_late : (b : Bool) → b ≡ false → (if b then purged else stays) ≡ stays
    if_late b e = rw e refl

module _ (now : ℕ) (dismissed deleted : Option ℕ) where
  applied-length :
      (key : String) (item : Item) (c : Change) (rest : List (String × Item) × Tally)
      → length (applied now key item c rest).0 + Tally.purged (applied now key item c rest).1
        ≡ suc (length rest.0 + Tally.purged rest.1)
  applied-length key item stays rest = omega arith
  applied-length key item marked rest = omega arith
  applied-length key item purged rest = omega arith

  maintain_items-length :
      (items : List (String × Item))
      → length (maintain_items now dismissed deleted items).0
          + Tally.purged (maintain_items now dismissed deleted items).1
        ≡ length items
  unfolding maintain_items
  maintain_items-length [] = refl
  maintain_items-length ((key, item) ∷ items) =
      applied-length key item (change_of now dismissed deleted item)
        (maintain_items now dismissed deleted items)
      ∙ ap suc (maintain_items-length items)

  -- No item that the pass would change.
  abbrev IsStill : List (String × Item) → Type 0
  IsStill [] = Unit {0}
  IsStill ((key, item) ∷ items) = (change_of now dismissed deleted item ≡ stays) × IsStill items

  maintain_items-still :
      (items : List (String × Item))
      → IsStill items
      → maintain_items now dismissed deleted items ≡ (items, no_changes)
  unfolding maintain_items
  maintain_items-still [] s = refl
  maintain_items-still ((key, item) ∷ items) s =
      ap (λ c. applied now key item c (maintain_items now dismissed deleted items)) s.0
      ∙ ap (applied now key item stays) (maintain_items-still items s.1)

  maintain_items-IsStill :
      (items : List (String × Item))
      → ((window : ℕ) → deleted ≡ some window → second ≤ window)
      → IsStill (maintain_items now dismissed deleted items).0
  unfolding maintain_items
  maintain_items-IsStill [] long = tt
  maintain_items-IsStill ((key, item) ∷ items) long =
      elim (Change-cases (change_of now dismissed deleted item)) [
        | inl h ↦ rw (maintain_items, h) (h, maintain_items-IsStill items long)
        | inr (inl h) ↦
            rw (maintain_items, h)
              (
                mark_deleted-still now dismissed deleted item long,
                maintain_items-IsStill items long,
              )
        | inr (inr h) ↦ rw (maintain_items, h) (maintain_items-IsStill items long)
      ]

retention_window-long : (days window : ℕ) → retention_window days ≡ some window → second ≤ window
unfolding retention_window
retention_window-long zero window h = ground (arith, h)
retention_window-long (suc days) window h = ground (arith, h)

-- A pass behind a pass at the same time finds nothing to do, reports nothing, and has no update to
-- write: what is marked in one pass is not purged in the same one, whatever the settings.
pub maintain_state-again :
    (settings : Option Settings) (now : ℕ) (state : State)
    → maintain_state settings now (Maintained.state (maintain_state settings now state)) ≡ record {
      state = Maintained.state (maintain_state settings now state);
      report = empty_report;
      updated = false;
    }
unfolding maintain_state
maintain_state-again settings now state =
    let long = retention_window-long (resolved_days (deleted_days_of settings)) in
    let d = dismissed_window settings in
    let e = deleted_window settings in
    rw
      (
        maintain_items-still now d e (maintain_items now d e state.scout_jobs).0
            (maintain_items-IsStill now d e state.scout_jobs long),
        maintain_items-still now d e (maintain_items now d e state.findings).0
            (maintain_items-IsStill now d e state.findings long),
      )
      refl

-- The report of a pass is right: it counts as marked and as purged the jobs, and the findings, that are
-- dismissed and deleted, and whose last change, or creation without one, is as many days ago as the
-- settings resolve to, where these are not zero; what is left of the jobs, and of the findings, is as
-- many as before less the purged; and the flag by which the state is written is set if and only if
-- the total is not zero.
pub maintain_state-total :
    (settings : Option Settings) (now : ℕ) (state : State)
    → let dismissed = resolved_days (dismissed_days_of settings) in
      let deleted = resolved_days (deleted_days_of settings) in
      let m = maintain_state settings now state in
      (Report.scout_items_marked_deleted m.report
        ≡ count_items (expires "dismissed" dismissed now) state.scout_jobs)
      × (Report.scout_items_purged m.report
          ≡ count_items (expires "deleted" deleted now) state.scout_jobs)
      × (Report.findings_marked_deleted m.report
          ≡ count_items (expires "dismissed" dismissed now) state.findings)
      × (Report.findings_purged m.report
          ≡ count_items (expires "deleted" deleted now) state.findings)
      × (length (State.scout_jobs m.state) + Report.scout_items_purged m.report
          ≡ length state.scout_jobs)
      × (length (State.findings m.state) + Report.findings_purged m.report ≡ length state.findings)
      × (m.updated ≡ ltb 0 (total m.report))
unfolding maintain_state total
maintain_state-total settings now state =
    let dismissed = resolved_days (dismissed_days_of settings) in
    let deleted = resolved_days (deleted_days_of settings) in
    let d = dismissed_window settings in
    let e = deleted_window settings in
    let jobs = maintain_items-IsTallied dismissed deleted now state.scout_jobs in
    let findings = maintain_items-IsTallied dismissed deleted now state.findings in
    (
      jobs.0,
      jobs.1,
      findings.0,
      findings.1,
      maintain_items-length now d e state.scout_jobs,
      maintain_items-length now d e state.findings,
      any_of (maintain_items now d e state.scout_jobs).1 (maintain_items now d e state.findings).1
          jobs.2 findings.2,
    )
  where
    any_of :
        (a b : Tally)
        → a.updated ≡ (ltb 0 a.marked_deleted || ltb 0 a.purged)
        → b.updated ≡ (ltb 0 b.marked_deleted || ltb 0 b.purged)
        → (a.updated || b.updated)
          ≡ ltb 0 (a.marked_deleted + a.purged + b.marked_deleted + b.purged + 0 + 0 + 0 + 0)
    any_of a b h k = rw (h, k) (ground arith)
