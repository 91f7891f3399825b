-- ===== src/RepoLock/Steps.antt =====
-- Every event of internal/gocli/repo_access_lock.go keeps what holds of the lock files and the
-- processes, if no file that a process owns is blank or stale when it is read.
use nana.Prelude.{
  ℕ, String, true, false, Option, none, some, ◌==◌, trim_space, lookup, is_some, ◌≡◌, inl, inr,
  refl, arith, eq_refl, Bool-cases, Option-cases,
}
use nana.RepoLock.Record.{LockRecord, Mode, read, write, build_record}
use nana.RepoLock.World.{
  Content, blank, stored, Phase, idle, reading, writing, busy, crashed, reader_cleaning,
  reader_checking, reader_creating, reader_writing, reader_confirming, reader_undoing,
  writer_cleaning, writer_creating, writer_writing, waiting_cleaning, waiting_listing,
  writer_undoing, downgrade_removing, downgrade_creating, downgrade_writing, World, phase_of, enter,
  record_of, fill, put_some, retry, create_reader, write_reader, create_writer, turn, list_others,
  list_readers,
}
use nana.RepoLock.Sound.{
  owns_writer, owns_reader, holds_write, holds_read, names, is_idle, IsSound, IsMove, IsUnowned,
}
use nana.RepoLock.Keeps.{IsMove-IsSound}
use nana.RepoLock.Fresh.{is_writer_calm, are_readers_calm, reads_writer, reads_readers}
use nana.RepoLock.Moves.{cleanup-IsKept, quiet, quietly, same-IsKept, read-IsKept}
use nana.RepoLock.Turns.{
  retry_owns, cleaning, checking, confirming, listing_to, put_reader-IsMove, remove_reader-IsMove,
  set_writer-IsMove, drop_writer-IsMove,
}

pub record_names :
    (p : String) (mode : Mode) (now : ℕ)
    → trim_space p ≡ p
    → names p (some (stored (record_of p mode now))) ≡ true
unfolding build_record
record_names p mode now t = elim (Bool-cases (p == "")) [
  | inl h ↦ rw (t, h, t, eq_refl p)
  | inr h ↦ rw (t, h, t, eq_refl p)
]

module _ (p : String) (w : World) (s : IsSound w) where
  creating_reader :
      (exists created : Phase)
      → is_idle (phase_of p w) ≡ false
      → IsMove p exists w (enter p exists w)
      → (owns_writer created ≡ true → owns_writer (phase_of p w) ≡ true)
      → holds_read created ≡ false
      → (holds_write created ≡ true → holds_write (phase_of p w) ≡ true)
      → IsSound (create_reader p exists created w)
  unfolding create_reader
  creating_reader exists created i m ow hr hw = elim (Bool-cases (is_some (lookup p w.readers))) [
    | inl h ↦ rw h (IsMove-IsSound m s)
    | inr h ↦ rw h (IsMove-IsSound (put_reader-IsMove p w s created (blank p) refl ow hr hw i) s)
  ]

  creating_writer :
      (asked : ℕ)
      → is_writer_calm w ≡ true
      → phase_of p w ≡ writer_creating asked
      → IsSound (create_writer p asked w)
  unfolding create_writer
  creating_writer asked calm e =
      let r = retry_owns w.now asked (writer_cleaning asked) refl refl in
      elim (Bool-cases (is_some w.writer)) [
        | inl h ↦ rw h (
            IsMove-IsSound
              (quietly (retry w.now asked (writer_cleaning asked)) s (read-IsKept p s calm) r.0 r.1
                (rw e))
              s)
        | inr h ↦ rw h (
            IsMove-IsSound
              (set_writer-IsMove p w s (writer_writing asked) (some (blank p)) refl
                (inr (unowned h)) refl refl (rw e))
              s)
      ]
    where
      unowned : is_some w.writer ≡ false → IsUnowned w
      unowned h q = elim (Bool-cases (owns_writer (phase_of q w))) [
        | inl o ↦ ground (arith, s.has_writer q o, h)
        | inr o ↦ o
      ]

  writing_reader :
      (r : LockRecord) (next : Phase)
      → names p (some (stored r)) ≡ true
      → owns_reader (phase_of p w) ≡ true
      → (owns_writer next ≡ true → owns_writer (phase_of p w) ≡ true)
      → holds_read next ≡ false
      → (holds_write next ≡ true → holds_write (phase_of p w) ≡ true)
      → is_idle (phase_of p w) ≡ false
      → IsSound (
          enter p next
            (record w { readers = put_some p (fill p r (lookup p w.readers)) w.readers }))
  unfolding fill
  writing_reader r next n o ow hr hw i = elim (Option-cases (lookup p w.readers)) [
    | inl h ↦ ground (arith, s.has_reader p o, h)
    | inr (blank q, h) ↦ elim (Bool-cases (q == p)) [
      | inl g ↦ rw (h, g) (IsMove-IsSound (put_reader-IsMove p w s next (stored r) n ow hr hw i) s)
      | inr g ↦
          rw (h, g) (IsMove-IsSound (put_reader-IsMove p w s next (blank q) refl ow hr hw i) s)
    ]
    | inr (stored x, h) ↦ rw h (
        IsMove-IsSound
          (put_reader-IsMove p w s next (stored x) (rw h at (s.has_reader p o)) ow hr hw i) s)
  ]

filled :
    (p : String) (r : LockRecord) (c : Option Content)
    → is_some c ≡ true
    → is_some (fill p r c) ≡ true
unfolding fill
filled p r none h = ground (arith, h)
filled p r (some (blank q)) h = ground arith
filled p r (some (stored x)) h = refl

pub turn-IsSound :
    (ph : Phase) (p : String) (w : World)
    → IsSound w
    → phase_of p w ≡ ph
    → (reads_writer ph ≡ true → is_writer_calm w ≡ true)
    → (reads_readers ph ≡ true → are_readers_calm w ≡ true)
    → IsSound (turn ph p w)
unfolding turn write_reader list_others
turn-IsSound idle p w s e c d = s
turn-IsSound reading p w s e c d = s
turn-IsSound writing p w s e c d = s
turn-IsSound busy p w s e c d = s
turn-IsSound crashed p w s e c d = s
turn-IsSound (reader_cleaning asked) p w s e c d =
    cleaning p w s (reader_checking asked) "" (c refl) (d refl) refl refl (rw e)
turn-IsSound (reader_checking asked) p w s e c d = checking p w s asked (c refl) e
turn-IsSound (reader_creating asked) p w s e c d =
    let r = retry_owns w.now asked (reader_cleaning asked) refl refl in
    creating_reader p w s (retry w.now asked (reader_cleaning asked)) (reader_writing asked) (rw e)
      (quietly (retry w.now asked (reader_cleaning asked)) s (same-IsKept p s) r.0 r.1 (rw e))
      (λ k. ground (arith, k)) refl (λ k. ground (arith, k))
turn-IsSound (reader_writing asked) p w s e c d =
    writing_reader p w s (record_of p read asked) (reader_confirming asked)
      (record_names p read asked (s.trimmed p (rw e))) (rw e) (λ k. ground (arith, k)) refl
      (λ k. ground (arith, k)) (rw e)
turn-IsSound (reader_confirming asked) p w s e c d = confirming p w s asked (c refl) e
turn-IsSound (reader_undoing asked) p w s e c d =
    let r = retry_owns w.now asked (reader_cleaning asked) refl refl in
    IsMove-IsSound
      (remove_reader-IsMove p w s (retry w.now asked (reader_cleaning asked)) r.0 r.1 (rw e)) s
turn-IsSound (writer_cleaning asked) p w s e c d =
    cleaning p w s (writer_creating asked) "" (c refl) (d refl) refl refl (rw e)
turn-IsSound (writer_creating asked) p w s e c d = creating_writer p w s asked (c refl) e
turn-IsSound (writer_writing asked) p w s e c d =
    IsMove-IsSound
      (set_writer-IsMove p w s (waiting_cleaning asked) (fill p (record_of p write asked) w.writer)
        (filled p (record_of p write asked) w.writer (s.has_writer p (rw e))) (inl (rw e)) refl refl
        (rw e))
      s
turn-IsSound (waiting_cleaning asked) p w s e c d =
    IsMove-IsSound
      (quiet (waiting_listing asked) s (cleanup-IsKept p s (c refl) (d refl) p) (λ k. rw e)
        (λ k. ground (arith, k)) (λ k. ground (arith, k)) (λ k. ground (arith, k)) (rw e))
      s
turn-IsSound (waiting_listing asked) p w s e c d =
    listing_to p w s asked (list_readers p w.readers).1 (d refl) e refl
turn-IsSound writer_undoing p w s e c d =
    IsMove-IsSound (drop_writer-IsMove p w s busy (rw e) refl (λ k. ground (arith, k)) (rw e)) s
turn-IsSound (downgrade_creating time) p w s e c d =
    creating_reader p w s writing (downgrade_writing time) (rw e)
      (quiet writing s (same-IsKept p s) (λ k. rw e) (λ k. ground (arith, k))
        (λ k. ground (arith, k)) (λ k. inl (rw e)) (rw e))
      (λ k. rw e) refl (λ k. rw e)
turn-IsSound (downgrade_writing time) p w s e c d =
    writing_reader p w s (record_of p read time) downgrade_removing
      (record_names p read time (s.trimmed p (rw e))) (rw e) (λ k. rw e) refl (λ k. rw e) (rw e)
turn-IsSound downgrade_removing p w s e c d =
    IsMove-IsSound (drop_writer-IsMove p w s reading (rw e) refl (λ k. rw e) (rw e)) s
