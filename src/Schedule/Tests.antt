-- ===== src/Schedule/Tests.antt =====
-- A daily role that is asked for four times.
use nana.Prelude.{
  ℕ, ◌*◌, true, none, List, [], ◌∷◌, ◌≡◌, refl, trim_space, trim_left, trim_right, is_space,
}
use nana.Queue.Priority.{lowers_to}
use nana.Schedule.{
  daily, effective_schedule, normalize_schedule, ScheduleState, hour, value, record_successful_run,
  interval_decision, schedule_decision, runs,
}
use nana.Schedule.Spacing.{is_spaced, runs-spaced}

daily_text : effective_schedule " Daily" ≡ daily
unfolding effective_schedule normalize_schedule lowers_to trim_space trim_left trim_right is_space
daily_text = refl

abbrev new_state : ScheduleState
new_state = record { last_successful_run_at = none; updated_at = none }

abbrev times : List ℕ
times = 999999999 ∷ hour ∷ (24 * hour) ∷ (49 * hour) ∷ []

three_runs : runs daily (value 0) new_state times ≡ 999999999 ∷ (24 * hour) ∷ (49 * hour) ∷ []
unfolding runs schedule_decision interval_decision record_successful_run
three_runs = refl

runs-spaced_example : is_spaced (24 * hour) (runs daily (value 0) new_state times) ≡ true
runs-spaced_example = runs-spaced daily (24 * hour) (value 0) new_state times refl
