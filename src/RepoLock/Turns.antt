-- ===== src/RepoLock/Turns.antt =====
-- One operation of a process in internal/gocli/repo_access_lock.go keeps what holds of the lock
-- files and the processes.
use nana.Prelude.{
  ℕ, ◌+◌, String, true, false, Option, none, some, List, [], ◌∷◌, ◌==◌, if◌then◌else◌, put,
  lookup-put, is_some, ◌≡◌, ◌≢◌, ◌⊎◌, inl, inr, refl, sym, arith, eq_iff, eq_refl, Bool-cases,
  Option-cases, ltb,
}
use nana.RepoLock.Record.{LockRecord, acquire_timeout}
use nana.RepoLock.World.{
  Content, Phase, reading, writing, reader_cleaning, reader_checking, reader_creating,
  reader_confirming, reader_undoing, waiting_cleaning, waiting_listing, writer_undoing, World,
  phase_of, enter, remove, cleanup_stale, read_writer, list_readers, retry, check_writer, listed,
}
use nana.RepoLock.Sound.{
  owns_writer, owns_reader, holds_write, holds_read, names, is_idle, IsSound, IsMove, IsUnowned,
}
use nana.RepoLock.Keeps.{IsMove-IsSound}
use nana.RepoLock.Fresh.{is_writer_calm, are_readers_calm, lookup-remove}
use nana.RepoLock.Moves.{
  cleanup-IsKept, quiet, quietly, read-IsKept, absent-IsUnowned, list-IsKept, none_reading,
  entered_at, read_owns, write_owns,
}

-- The phases of a retry own nothing.
pub retry_owns :
    (now asked : ℕ) (again : Phase)
    → owns_writer again ≡ false
    → owns_reader again ≡ false
    → (owns_writer (retry now asked again) ≡ false) × (owns_reader (retry now asked again) ≡ false)
unfolding retry
retry_owns now asked again a b = ground (arith, a, b)

differs : (p q : String) → q ≢ p → (p == q) ≡ false
differs p q d = elim (Bool-cases (p == q)) [
  | inl h ↦ absurd (d (sym ((eq_iff p q).0 h)))
  | inr h ↦ h
]

module _ (p : String) (w : World) (s : IsSound w) where
  pub cleaning :
      (next : Phase) (exclude : String)
      → is_writer_calm w ≡ true
      → are_readers_calm w ≡ true
      → owns_writer next ≡ false
      → owns_reader next ≡ false
      → is_idle (phase_of p w) ≡ false
      → IsSound (enter p next (cleanup_stale exclude w))
  cleaning next exclude calm calms a b i =
      IsMove-IsSound (quietly next s (cleanup-IsKept p s calm calms exclude) a b i) s

  pub checking :
      (asked : ℕ)
      → is_writer_calm w ≡ true
      → phase_of p w ≡ reader_checking asked
      → IsSound
          (check_writer p (retry w.now asked (reader_cleaning asked)) (reader_creating asked) w)
  unfolding check_writer
  checking asked calm e =
      let r = retry_owns w.now asked (reader_cleaning asked) refl refl in
      elim (Option-cases (read_writer w.writer).1) [
        | inl h ↦ rw h (
            IsMove-IsSound
              (quietly (reader_creating asked) s (read-IsKept p s calm) refl refl (rw e)) s)
        | inr (_, h) ↦ rw h (
            IsMove-IsSound
              (quietly (retry w.now asked (reader_cleaning asked)) s (read-IsKept p s calm) r.0 r.1
                (rw e))
              s)
      ]

  pub confirming :
      (asked : ℕ)
      → is_writer_calm w ≡ true
      → phase_of p w ≡ reader_confirming asked
      → IsSound (check_writer p (reader_undoing asked) reading w)
  unfolding check_writer
  confirming asked calm e = elim (Option-cases (read_writer w.writer).1) [
    | inl h ↦ rw h (
        IsMove-IsSound
          (quiet reading s (read-IsKept p s calm) (λ k. ground (arith, k)) (λ k. rw e)
            (λ k. inr (inr (absent-IsUnowned p s calm h))) (λ k. ground (arith, k)) (rw e))
          s)
    | inr (_, h) ↦ rw h (
        IsMove-IsSound
          (quiet (reader_undoing asked) s (read-IsKept p s calm) (λ k. ground (arith, k))
            (λ k. rw e) (λ k. ground (arith, k)) (λ k. ground (arith, k)) (rw e))
          s)
  ]

  pub listing_to :
      (asked : ℕ) (found : List LockRecord)
      → are_readers_calm w ≡ true
      → phase_of p w ≡ waiting_listing asked
      → (list_readers p w.readers).1 ≡ found
      → IsSound
          (enter p (listed found asked w.now) (record w { readers = (list_readers p w.readers).0 }))
  listing_to asked [] calm e h =
      IsMove-IsSound
        (quiet writing s (list-IsKept p s calm p) (λ k. rw e) (λ k. ground (arith, k))
          (λ k. ground (arith, k)) (λ k. inr (none_reading p s calm h (s.trimmed p (rw e)))) (rw e))
        s
  listing_to asked (_ ∷ _) calm e h =
      IsMove-IsSound
        (quiet
          (if ltb (asked + acquire_timeout) w.now then writer_undoing else waiting_cleaning asked) s
          (list-IsKept p s calm p) (λ k. rw e) (λ k. ground (arith, k)) (λ k. ground (arith, k))
          (λ k. ground (arith, k)) (rw e))
        s

  pub put_reader-IsMove :
      (ph : Phase) (c : Content)
      → names p (some c) ≡ true
      → (owns_writer ph ≡ true → owns_writer (phase_of p w) ≡ true)
      → holds_read ph ≡ false
      → (holds_write ph ≡ true → holds_write (phase_of p w) ≡ true)
      → is_idle (phase_of p w) ≡ false
      → IsMove p ph w (enter p ph (record w { readers = put p c w.readers }))
  unfolding enter phase_of
  put_reader-IsMove ph c n ow hr hw i = record {
    entered = λ q. entered_at p q ph w (record w { readers = put p c w.readers }) refl;
    claims = λ h. inl (ow h);
    writer_there = λ h. s.has_writer p (ow h);
    writer_kept = λ q d h. s.has_writer q h;
    reader_there = λ h. rw (lookup-put p p c w.readers, eq_refl p) n;
    readers_kept = λ q d h. rw (lookup-put p q c w.readers, differs p q d) (s.has_reader q h);
    reads_alone = λ h. ground (arith, h, hr);
    writes_alone = λ h. inl (hw h);
    same_token = λ h. s.trimmed p i;
  }

  pub remove_reader-IsMove :
      (ph : Phase)
      → owns_writer ph ≡ false
      → owns_reader ph ≡ false
      → is_idle (phase_of p w) ≡ false
      → IsMove p ph w (enter p ph (record w { readers = remove p w.readers }))
  unfolding enter phase_of
  remove_reader-IsMove ph a b i = record {
    entered = λ q. entered_at p q ph w (record w { readers = remove p w.readers }) refl;
    claims = λ h. ground (arith, h, a);
    writer_there = λ h. ground (arith, h, a);
    writer_kept = λ q d h. s.has_writer q h;
    reader_there = λ h. ground (arith, h, b);
    readers_kept = λ q d h. rw (lookup-remove q p w.readers, differs p q d) (s.has_reader q h);
    reads_alone = λ h. absurd (read_owns ph h b);
    writes_alone = λ h. absurd (write_owns ph h a);
    same_token = λ h. s.trimmed p i;
  }

  pub set_writer-IsMove :
      (ph : Phase) (c : Option Content)
      → is_some c ≡ true
      → owns_writer (phase_of p w) ≡ true ⊎ IsUnowned w
      → owns_reader ph ≡ false
      → holds_write ph ≡ false
      → is_idle (phase_of p w) ≡ false
      → IsMove p ph w (enter p ph (record w { writer = c }))
  unfolding enter phase_of
  set_writer-IsMove ph c there o b hw i = record {
    entered = λ q. entered_at p q ph w (record w { writer = c }) refl;
    claims = λ h. o;
    writer_there = λ h. there;
    writer_kept = λ q d h. there;
    reader_there = λ h. ground (arith, h, b);
    readers_kept = λ q d h. s.has_reader q h;
    reads_alone = λ h. absurd (read_owns ph h b);
    writes_alone = λ h. ground (arith, h, hw);
    same_token = λ h. s.trimmed p i;
  }

  pub drop_writer-IsMove :
      (ph : Phase)
      → owns_writer (phase_of p w) ≡ true
      → owns_writer ph ≡ false
      → (owns_reader ph ≡ true → owns_reader (phase_of p w) ≡ true)
      → is_idle (phase_of p w) ≡ false
      → IsMove p ph w (enter p ph (record w { writer = none }))
  unfolding enter phase_of
  drop_writer-IsMove ph o a b i = record {
    entered = λ q. entered_at p q ph w (record w { writer = none }) refl;
    claims = λ h. ground (arith, h, a);
    writer_there = λ h. ground (arith, h, a);
    writer_kept = λ q d h. absurd (d (sym (s.one_writer p q o h)));
    reader_there = λ h. s.has_reader p (b h);
    readers_kept = λ q d h. s.has_reader q h;
    reads_alone = λ h. inr (inl o);
    writes_alone = λ h. absurd (write_owns ph h a);
    same_token = λ h. s.trimmed p i;
  }
