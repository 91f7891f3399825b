-- ===== src/Schedule.antt =====
-- internal/gocli/scout_schedule.go: when a scout role is due. A time is in nanoseconds, and a stored
-- timestamp is the time that it parses to, if any; the code formats it in whole seconds.
use nana.Prelude.{
  ℕ, ◌+◌, ◌-◌, ◌%◌, ◌*◌, String, Bool, true, false, ◌||◌, Option, none, some, List, [], ◌∷◌, eqb,
  leb, if◌then◌else◌, trim_space,
}
use nana.Queue.Priority.{lowers_to}
mod Spacing
mod Tests

pub data Schedule : Type 0 where
  always daily weekly when_resolved : Schedule

unfoldable pub normalize_schedule : String → Option Schedule
normalize_schedule value =
    let raw = trim_space value in
    if lowers_to raw "always"
    then some always
    else if lowers_to raw "daily"
    then some daily
    else if lowers_to raw "weekly"
    then some weekly
    else if lowers_to raw "when_resolved"
        || lowers_to raw "when-resolved"
        || lowers_to raw "resolved"
    then some when_resolved
    else none

abbrev pub or_when_resolved : Option Schedule → Schedule
or_when_resolved none = when_resolved
or_when_resolved (some schedule) = schedule

unfoldable pub effective_schedule : String → Schedule
effective_schedule value = or_when_resolved (normalize_schedule value)

pub record ScheduleState : Type 0 where
  pub last_successful_run_at : Option ℕ
  pub updated_at : Option ℕ

abbrev pub nanoseconds : ℕ
nanoseconds = 1000000000

-- recordSuccessfulScoutRun, between the read and the write of the file.
unfoldable pub record_successful_run : ℕ → ScheduleState → ScheduleState
record_successful_run at state = record {
  last_successful_run_at = some (at - at % nanoseconds);
  updated_at = some (at - at % nanoseconds);
}

pub data Decision : Type 0 where
  due : Decision
  waiting_for_items not_due_until : ℕ → Decision

-- What a read gives: a file that does not exist gives the zero state.
pub data Read {ℓ} (A : Type ℓ) : Type ℓ where
  value : A → Read A
  failed : String → Read A

abbrev pub hour : ℕ
hour = 3600 * nanoseconds

unfoldable pub interval_decision : ℕ → ℕ → ℕ → Decision
interval_decision last_success now interval =
    if leb (last_success + interval) now then due else not_due_until (last_success + interval)

abbrev pub outstanding_decision : Read ℕ → Read Decision
outstanding_decision (failed e) = failed e
outstanding_decision (value outstanding) =
    if eqb outstanding 0 then value due else value (waiting_for_items outstanding)

abbrev pub since_decision : Option ℕ → ℕ → ℕ → Decision
since_decision none now interval = due
since_decision (some last_success) now interval = interval_decision last_success now interval

abbrev pub stored_decision : Read ScheduleState → ℕ → ℕ → Read Decision
stored_decision (failed e) now interval = failed e
stored_decision (value state) now interval =
    value (since_decision (ScheduleState.last_successful_run_at state) now interval)

-- scoutScheduleDecisionForRole, with the count of the outstanding items and the read of the file.
unfoldable pub schedule_decision : Schedule → Read ℕ → Read ScheduleState → ℕ → Read Decision
schedule_decision always outstanding state now = value due
schedule_decision when_resolved outstanding state now = outstanding_decision outstanding
schedule_decision daily outstanding state now = stored_decision state now (24 * hour)
schedule_decision weekly outstanding state now = stored_decision state now (7 * (24 * hour))

abbrev pub is_due : Read Decision → Bool
is_due (value due) = true
is_due _ = false

-- A role that is asked for at some times, and whose runs succeed at once: the times of its runs.
unfoldable pub runs : Schedule → Read ℕ → ScheduleState → List ℕ → List ℕ
runs schedule outstanding state [] = []
runs schedule outstanding state (now ∷ times) =
    let ran = runs schedule outstanding (record_successful_run now state) times in
    let skipped = runs schedule outstanding state times in
    if is_due (schedule_decision schedule outstanding (value state) now) then now ∷ ran else skipped
