-- ===== src/RepoLock/Alone.antt =====
-- A process that asks for a lock of internal/gocli/repo_access_lock.go which no other contends for.
use nana.Prelude.{
  ℕ, String, true, Option, none, some, List, [], ◌∷◌, ◌==◌, trim_space, lookup, put, ◌≡◌, refl,
  arith, eq_refl, Bool-cases, inl, inr,
}
use nana.RepoLock.Record.{LockRecord, Mode, read, write, build_record}
use nana.RepoLock.World.{
  Content, blank, stored, Phase, reading, writing, reader_cleaning, reader_checking,
  reader_creating, reader_writing, reader_confirming, writer_cleaning, writer_creating,
  writer_writing, waiting_cleaning, waiting_listing, World, phase_of, enter, start, is_free, ask,
  turn, Event, asks, turns, step, run, cleanup_stale, clean_writer, clean_readers, check_writer,
  create_reader, write_reader, create_writer, list_others, read_writer, list_readers, fill,
  record_of, put_some, is_removed,
}
use nana.RepoLock.Abandoned.{IsAbandoned, clean_writer-left, clean_readers-left}
use nana.RepoLock.Moves.{phase_of-enter}

own_phase : (p : String) (ph : Phase) (w : World) → phase_of p (enter p ph w) ≡ ph
own_phase p ph w = rw (phase_of-enter p p ph w, eq_refl p)

record At (p : String) (ph : Phase) (file : Option Content) (files : List (String × Content))
    (w : World) : Type 0 where
  phase : phase_of p w ≡ ph
  writer : w.writer ≡ file
  readers : w.readers ≡ files

entered-At :
    {p : String} {ph : Phase} {file : Option Content} {files : List (String × Content)} (v : World)
    → v.writer ≡ file
    → v.readers ≡ files
    → At p ph file files (enter p ph v)
unfolding enter phase_of
entered-At v a b = record { phase = own_phase _ _ v; writer = a; readers = b }

step_turns :
    (p : String) (ph : Phase) (w : World) → phase_of p w ≡ ph → step (turns p) w ≡ turn ph p w
unfolding step
step_turns p ph w e = rw e

record_of-token :
    (p : String) (mode : Mode) (t : ℕ) → trim_space p ≡ p → (record_of p mode t).token ≡ p
unfolding build_record
record_of-token p mode t h = elim (Bool-cases (p == "")) [
  | inl e ↦ rw (h, e) refl
  | inr e ↦ rw (h, e) refl
]

filled_own :
    (p : String) (r : LockRecord)
    → put_some p (fill p r (lookup p ((p, blank p) ∷ []))) ((p, blank p) ∷ []) ≡ (p, stored r) ∷ []
unfolding fill lookup put
filled_own p r = let e = eq_refl p in ground (arith, e)

module _ (p : String) (t : ℕ) (w : World) where
  cleaned_reader :
      phase_of p w ≡ reader_cleaning t
      → IsAbandoned w
      → At p (reader_checking t) none [] (step (turns p) w)
  unfolding turn cleanup_stale
  cleaned_reader e a = rw (step_turns p _ w e) (
      entered-At (cleanup_stale "" w) (clean_writer-left w.now w.writer a.writer)
        (clean_readers-left w.now w.readers a.readers))

  checked_reader :
      At p (reader_checking t) none [] w → At p (reader_creating t) none [] (step (turns p) w)
  unfolding turn check_writer read_writer
  checked_reader a =
      rw (step_turns p _ w a.phase, a.writer)
        (entered-At (record w { writer = none }) refl a.readers)

  created_reader :
      At p (reader_creating t) none [] w
      → At p (reader_writing t) none ((p, blank p) ∷ []) (step (turns p) w)
  unfolding turn create_reader lookup put
  created_reader a =
      rw (step_turns p _ w a.phase, a.readers)
        (entered-At (record w { readers = (p, blank p) ∷ [] }) a.writer refl)

  wrote_reader :
      At p (reader_writing t) none ((p, blank p) ∷ []) w
      → At p (reader_confirming t) none ((p, stored (record_of p read t)) ∷ []) (step (turns p) w)
  unfolding turn write_reader
  wrote_reader a =
      rw (step_turns p _ w a.phase, a.readers)
        (entered-At _ a.writer (filled_own p (record_of p read t)))

  confirmed_reader :
      {files : List (String × Content)}
      → At p (reader_confirming t) none files w
      → At p reading none files (step (turns p) w)
  unfolding turn check_writer read_writer
  confirmed_reader a =
      rw (step_turns p _ w a.phase, a.writer)
        (entered-At (record w { writer = none }) refl a.readers)

  cleaned_writer :
      phase_of p w ≡ writer_cleaning t
      → IsAbandoned w
      → At p (writer_creating t) none [] (step (turns p) w)
  unfolding turn cleanup_stale
  cleaned_writer e a = rw (step_turns p _ w e) (
      entered-At (cleanup_stale "" w) (clean_writer-left w.now w.writer a.writer)
        (clean_readers-left w.now w.readers a.readers))

  created_writer :
      At p (writer_creating t) none [] w
      → At p (writer_writing t) (some (blank p)) [] (step (turns p) w)
  unfolding turn create_writer
  created_writer a =
      rw (step_turns p _ w a.phase, a.writer)
        (entered-At (record w { writer = some (blank p) }) refl a.readers)

  wrote_writer :
      At p (writer_writing t) (some (blank p)) [] w
      → At p (waiting_cleaning t) (some (stored (record_of p write t))) [] (step (turns p) w)
  unfolding turn fill
  wrote_writer a =
      rw (step_turns p _ w a.phase, a.writer, eq_refl p)
        (entered-At (record w { writer = some (stored (record_of p write t)) }) refl a.readers)

  kept_writer :
      trim_space p ≡ p
      → At p (waiting_cleaning t) (some (stored (record_of p write t))) [] w
      → At p (waiting_listing t) (some (stored (record_of p write t))) [] (step (turns p) w)
  unfolding turn cleanup_stale clean_writer clean_readers is_removed
  kept_writer h a = rw (step_turns p _ w a.phase) (
      entered-At (cleanup_stale p w)
        (rw (a.writer, record_of-token p write t h, eq_refl (trim_space p)) refl)
        (rw a.readers refl))

  listed_writer :
      {file : Option Content}
      → At p (waiting_listing t) file [] w
      → At p writing file [] (step (turns p) w)
  unfolding turn list_others list_readers
  listed_writer a =
      rw (step_turns p _ w a.phase, a.readers)
        (entered-At (record w { readers = [] }) a.writer refl)

asked :
    (p : String) (mode : Mode) (w : World)
    → trim_space p ≡ p
    → is_free (phase_of p w) ≡ true
    → step (asks p mode) w ≡ enter p (start mode w.now) w
unfolding step ask
asked p mode w t f = rw (f, t, eq_refl p) refl

asked-IsAbandoned :
    (p : String) (ph : Phase) (w : World) → IsAbandoned w → IsAbandoned (enter p ph w)
unfolding enter
asked-IsAbandoned p ph w a = record { writer = a.writer; readers = a.readers }

abbrev held : Mode → Phase
held read = reading
held write = writing

abbrev pub five : String → List Event
five p = turns p ∷ turns p ∷ turns p ∷ turns p ∷ turns p ∷ []

run-five :
    (p : String) (mode : Mode) (w : World)
    → trim_space p ≡ p
    → phase_of p w ≡ start mode w.now
    → IsAbandoned w
    → phase_of p (run (five p) w) ≡ held mode
unfolding run
run-five p read w t e a =
    let n = w.now in
    (confirmed_reader p n _ (
      wrote_reader p n _
        (created_reader p n _ (checked_reader p n _ (cleaned_reader p n w e a))))).phase
run-five p write w t e a =
    let n = w.now in
    (listed_writer p n _ (
      kept_writer p n _ t
        (wrote_writer p n _ (created_writer p n _ (cleaned_writer p n w e a))))).phase

started :
    (p : String) (mode : Mode) (w : World)
    → phase_of p (enter p (start mode w.now) w)
      ≡ start mode (World.now (enter p (start mode w.now) w))
unfolding enter
started p mode w = own_phase p (start mode w.now) w

-- A process that holds no lock, with a token without outer white space, and asks for one where every
-- lock file there has no record, or a record with a token and with no time or one more than 30
-- seconds ago, as the holders that crashed leave them, holds it behind five operations on the files,
-- if no other process takes part meanwhile.
pub asks-granted :
    (p : String) (mode : Mode) (w : World)
    → trim_space p ≡ p
    → is_free (phase_of p w) ≡ true
    → IsAbandoned w
    → phase_of p (run (asks p mode ∷ five p) w) ≡ held mode
unfolding run
asks-granted p mode w t f a = rw (asked p mode w t f) (
    run-five p mode (enter p (start mode w.now) w) t (started p mode w)
      (asked-IsAbandoned p (start mode w.now) w a))
