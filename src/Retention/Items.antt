-- ===== src/Retention/Items.antt =====
-- internal/gocli/dismissed_retention.go: the pass over the scout jobs, findings and scout pickup items
-- of a repository. A time is in nanoseconds, and a stored timestamp is the time that it parses to, if
-- any; the code formats the time of a pass in whole seconds.
use nana.Prelude.{
  ℕ, zero, suc, ◌+◌, ◌-◌, ◌*◌, ◌%◌, String, Bool, true, false, ◌||◌, Option, none, some, List, [],
  ◌∷◌, ◌==◌, leb, if◌then◌else◌, trim_space, map,
}
use nana.Retention.Days.{Settings, resolved_days, dismissed_days_of, deleted_days_of}

-- The fields that the pass reads or writes, of a scout job, a finding or a pickup item; the last has
-- no time of creation.
pub record Item : Type 0 where
  pub status : String
  pub deleted_from_status : String
  pub deleted_at : Option ℕ
  pub created_at : Option ℕ
  pub updated_at : Option ℕ

abbrev pub second : ℕ
second = 1000000000

-- retentionCutoff: how long before the pass its cutoff is. A day of UTC has 86400 seconds.
unfoldable pub retention_window : ℕ → Option ℕ
retention_window zero = none
retention_window (suc days) = some (suc days * (86400 * second))

-- retentionTimestampExpired, for a window and the time of the pass.
unfoldable pub timestamp_expired : ℕ → ℕ → Option ℕ → Option ℕ → Bool
timestamp_expired now window (some updated_at) created_at = leb (updated_at + window) now
timestamp_expired now window none (some created_at) = leb (created_at + window) now
timestamp_expired now window none none = false

unfoldable pub is_due : ℕ → Option ℕ → Item → Bool
is_due now none item = false
is_due now (some window) item = timestamp_expired now window item.updated_at item.created_at

unfoldable pub mark_deleted : ℕ → Item → Item
mark_deleted now item = record item {
  deleted_from_status = trim_space item.status;
  deleted_at = some (now - now % second);
  status = "deleted";
  updated_at = some (now - now % second);
}

-- What a pass does to an item.
pub data Change : Type 0 where
  stays marked purged : Change

unfoldable pub change_of : ℕ → Option ℕ → Option ℕ → Item → Change
change_of now dismissed deleted item =
    if trim_space item.status == "dismissed"
    then (if is_due now dismissed item then marked else stays)
    else if trim_space item.status == "deleted"
    then (if is_due now deleted item then purged else stays)
    else stays

-- The counts of a loop, and the flag that its branches set.
pub record Tally : Type 0 where
  pub marked_deleted : ℕ
  pub purged : ℕ
  pub updated : Bool

abbrev pub applied :
    ℕ → String → Item → Change → List (String × Item) × Tally → List (String × Item) × Tally
applied now key item stays (rest, tally) = ((key, item) ∷ rest, tally)
applied now key item marked (rest, tally) = (
  (key, mark_deleted now item) ∷ rest,
  record tally { marked_deleted = suc tally.marked_deleted; updated = true },
)
applied now key item purged (rest, tally) =
    (rest, record tally { purged = suc tally.purged; updated = true })

abbrev pub no_changes : Tally
no_changes = record { marked_deleted = 0; purged = 0; updated = false }

-- One loop over a map of items.
unfoldable pub maintain_items :
    ℕ → Option ℕ → Option ℕ → List (String × Item) → List (String × Item) × Tally
maintain_items now dismissed deleted [] = ([], no_changes)
maintain_items now dismissed deleted ((key, item) ∷ items) =
    applied now key item (change_of now dismissed deleted item)
      (maintain_items now dismissed deleted items)

pub record Report : Type 0 where
  pub scout_items_marked_deleted : ℕ
  pub scout_items_purged : ℕ
  pub findings_marked_deleted : ℕ
  pub findings_purged : ℕ
  pub work_items_marked_deleted : ℕ
  pub work_items_purged : ℕ
  pub repo_less_work_items_marked_deleted : ℕ
  pub repo_less_work_items_purged : ℕ

unfoldable pub merge : Report → Report → Report
merge report other = record {
  scout_items_marked_deleted = report.scout_items_marked_deleted + other.scout_items_marked_deleted;
  scout_items_purged = report.scout_items_purged + other.scout_items_purged;
  findings_marked_deleted = report.findings_marked_deleted + other.findings_marked_deleted;
  findings_purged = report.findings_purged + other.findings_purged;
  work_items_marked_deleted = report.work_items_marked_deleted + other.work_items_marked_deleted;
  work_items_purged = report.work_items_purged + other.work_items_purged;
  repo_less_work_items_marked_deleted =
      report.repo_less_work_items_marked_deleted + other.repo_less_work_items_marked_deleted;
  repo_less_work_items_purged =
      report.repo_less_work_items_purged + other.repo_less_work_items_purged;
}

unfoldable pub total : Report → ℕ
total report =
    report.scout_items_marked_deleted + report.scout_items_purged + report.findings_marked_deleted
    + report.findings_purged + report.work_items_marked_deleted + report.work_items_purged
    + report.repo_less_work_items_marked_deleted + report.repo_less_work_items_purged

abbrev pub empty_report : Report
empty_report = record {
  scout_items_marked_deleted = 0;
  scout_items_purged = 0;
  findings_marked_deleted = 0;
  findings_purged = 0;
  work_items_marked_deleted = 0;
  work_items_purged = 0;
  repo_less_work_items_marked_deleted = 0;
  repo_less_work_items_purged = 0;
}

abbrev pub dismissed_window : Option Settings → Option ℕ
dismissed_window settings = retention_window (resolved_days (dismissed_days_of settings))

abbrev pub deleted_window : Option Settings → Option ℕ
deleted_window settings = retention_window (resolved_days (deleted_days_of settings))

-- The part of startWorkState that maintainDismissedStartWorkStateItems changes.
pub record State : Type 0 where
  pub scout_jobs : List (String × Item)
  pub findings : List (String × Item)

pub record Maintained : Type 0 where
  pub state : State
  pub report : Report
  pub updated : Bool

-- maintainDismissedStartWorkStateItems, where there is a state.
unfoldable pub maintain_state : Option Settings → ℕ → State → Maintained
maintain_state settings now state =
    let (jobs, job_tally) =
      maintain_items now (dismissed_window settings) (deleted_window settings) state.scout_jobs in
    let (findings, finding_tally) =
      maintain_items now (dismissed_window settings) (deleted_window settings) state.findings in
    record {
      state = record { scout_jobs = jobs; findings = findings };
      report = record empty_report {
        scout_items_marked_deleted = job_tally.marked_deleted;
        scout_items_purged = job_tally.purged;
        findings_marked_deleted = finding_tally.marked_deleted;
        findings_purged = finding_tally.purged;
      };
      updated = job_tally.updated || finding_tally.updated;
    }

abbrev pub without_creation : String × Item → String × Item
without_creation (key, item) = (key, record item { created_at = none })

-- The loop of maintainDismissedScoutPickupItems, under the lock of its file.
unfoldable pub maintain_pickups :
    Option Settings → ℕ → List (String × Item) → List (String × Item) × Report × Bool
maintain_pickups settings now items =
    let (kept, tally) =
      maintain_items now (dismissed_window settings) (deleted_window settings)
        (map without_creation items) in
    (
      kept,
      record empty_report {
        scout_items_marked_deleted = tally.marked_deleted;
        scout_items_purged = tally.purged;
      },
      tally.updated,
    )
