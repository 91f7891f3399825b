-- ===== src/Schedule/Spacing.antt =====
-- The time between the runs of a role with a daily or weekly schedule.
use nana.Prelude.{
  ℕ, ◌+◌, ◌-◌, ◌%◌, ◌*◌, ◌<◌, Bool, true, ◌&&◌, Option, none, some, List, [], ◌∷◌, leb, ltb, ◌≡◌,
  ◌∙◌, sym, ap, refl, arith, inl, inr, Bool-cases,
}
use native.Mathlib.Nat.{mod-lt}
use nana.Schedule.{
  Schedule, always, daily, weekly, when_resolved, ScheduleState, nanoseconds, record_successful_run,
  Read, value, hour, interval_decision, since_decision, schedule_decision, is_due, runs,
}

-- The interval of a schedule by days or weeks.
abbrev pub interval_of : Schedule → Option ℕ
interval_of always = none
interval_of when_resolved = none
interval_of daily = some (24 * hour)
interval_of weekly = some (7 * (24 * hour))

-- Each time is later than the one before by the interval or by less than a second less.
abbrev pub spaced_from : ℕ → ℕ → List ℕ → Bool
spaced_from interval last [] = true
spaced_from interval last (t ∷ times) =
    let rest = spaced_from interval t times in ltb (last + interval) (t + nanoseconds) && rest

abbrev pub is_spaced : ℕ → List ℕ → Bool
is_spaced interval [] = true
is_spaced interval (t ∷ times) = spaced_from interval t times

abbrev or_zero : Option ℕ → ℕ
or_zero none = 0
or_zero (some n) = n

-- A role that has run is due from its interval on.
is_due-since :
    (last now interval : ℕ)
    → is_due (value (since_decision (some last) now interval)) ≡ leb (last + interval) now
unfolding interval_decision
is_due-since last now interval = elim (Bool-cases (leb (last + interval) now)) [
  | inl e ↦ rw e refl
  | inr e ↦ rw e refl
]

is_due-interval :
    (schedule : Schedule) (interval : ℕ) (outstanding : Read ℕ) (state : ScheduleState) (now : ℕ)
    → interval_of schedule ≡ some interval
    → is_due (schedule_decision schedule outstanding (value state) now)
      ≡ is_due (value (since_decision state.last_successful_run_at now interval))
unfolding schedule_decision
is_due-interval always interval outstanding state now h = ground (arith, h)
is_due-interval when_resolved interval outstanding state now h = ground (arith, h)
is_due-interval daily interval outstanding state now h =
    ap (λ o. is_due (value (since_decision state.last_successful_run_at now (or_zero o)))) h
is_due-interval weekly interval outstanding state now h =
    ap (λ o. is_due (value (since_decision state.last_successful_run_at now (or_zero o)))) h

ltb-spaced :
    (last r interval now n : ℕ)
    → r < n
    → leb ((last - r) + interval) now ≡ true
    → ltb (last + interval) (now + n) ≡ true
ltb-spaced last r interval now n h k = ground (arith, h, k)

recorded :
    (now : ℕ) (state : ScheduleState)
    → ScheduleState.last_successful_run_at (record_successful_run now state)
      ≡ some (now - now % nanoseconds)
unfolding record_successful_run
recorded now state = refl

module _ (schedule : Schedule) (interval : ℕ) (outstanding : Read ℕ)
    (i : interval_of schedule ≡ some interval) where
  runs-spaced_from :
      (times : List ℕ) (last : ℕ) (state : ScheduleState)
      → state.last_successful_run_at ≡ some (last - last % nanoseconds)
      → spaced_from interval last (runs schedule outstanding state times) ≡ true
  unfolding runs
  runs-spaced_from [] last state h = refl
  runs-spaced_from (now ∷ times) last state h =
      elim (Bool-cases (is_due (schedule_decision schedule outstanding (value state) now))) [
        | inl e ↦
            let ih =
              runs-spaced_from times now (record_successful_run now state) (recorded now state) in
            let since =
              sym (is_due-since (last - last % nanoseconds) now interval)
              ∙ sym (ap (λ o. is_due (value (since_decision o now interval))) h)
              ∙ sym (is_due-interval schedule interval outstanding state now i)
              ∙ e in
            let apart =
              ltb-spaced last (last % nanoseconds) interval now nanoseconds
                (mod-lt last (omega arith)) since in
            rw (runs, e) (both _ _ apart ih)
        | inr e ↦ rw (runs, e) (runs-spaced_from times last state h)
      ]
    where
      both : (a b : Bool) → a ≡ true → b ≡ true → (a && b) ≡ true
      both a b h k = ground (arith, h, k)

-- A role with a daily or weekly schedule that is asked for at any times, and whose runs succeed at
-- once, runs again only when its interval has gone by since its last run, or less than a second before
-- that, since the time of a run is stored in whole seconds; whatever the file has at first.
pub runs-spaced :
    (schedule : Schedule) (interval : ℕ) (outstanding : Read ℕ) (state : ScheduleState)
    (times : List ℕ)
    → interval_of schedule ≡ some interval
    → is_spaced interval (runs schedule outstanding state times) ≡ true
unfolding runs
runs-spaced schedule interval outstanding state [] i = refl
runs-spaced schedule interval outstanding state (now ∷ times) i =
    elim (Bool-cases (is_due (schedule_decision schedule outstanding (value state) now))) [
      | inl e ↦
          rw (runs, e)
            (runs-spaced_from schedule interval outstanding i times now
              (record_successful_run now state) (recorded now state))
      | inr e ↦ rw (runs, e) (runs-spaced schedule interval outstanding state times i)
    ]
