-- ===== src/RepoLock/Moves.antt =====
-- Each operation of internal/gocli/repo_access_lock.go is a move that keeps what holds of the lock
-- files and the processes.
use nana.Prelude.{
  ℕ, String, true, false, Option, none, some, [], ◌==◌, if◌then◌else◌, trim_space, lookup,
  lookup-put, is_some, ◌≡◌, ◌≢◌, ◌⊎◌, inl, inr, refl, ◌∙◌, arith, Bool-cases,
}
use nana.RepoLock.World.{
  Content, blank, stored, Phase, idle, World, phase_of, enter, cleanup_stale, read_writer,
  list_readers,
}
use nana.RepoLock.Sound.{
  owns_writer, owns_reader, holds_write, holds_read, names, is_idle, IsSound, IsMove, IsUnowned,
}
use nana.RepoLock.Fresh.{
  is_fresh, is_writer_calm, are_readers_calm, calm-writer, calm-reader, clean_writer-fresh,
  lookup-clean_readers, lookup-list_readers, list_readers_none,
}

pub phase_of-enter :
    (p q : String) (ph : Phase) (w : World)
    → phase_of q (enter p ph w) ≡ (if p == q then ph else phase_of q w)
unfolding phase_of enter
phase_of-enter p q ph w = ground (arith, lookup-put p q ph w.phases)

-- The same files behind an operation, as far as processes own them.
pub record IsKept (p : String) (w v : World) : Type 0 where
  phases : v.phases ≡ w.phases
  writer : (q : String) → owns_writer (phase_of q w) ≡ true → is_some v.writer ≡ true
  readers : (q : String) → owns_reader (phase_of q w) ≡ true → names q (lookup q v.readers) ≡ true

module _ (p : String) {w : World} (s : IsSound w) (calm : is_writer_calm w ≡ true)
    (calms : are_readers_calm w ≡ true) where
  pub cleanup-IsKept : (exclude : String) → IsKept p w (cleanup_stale exclude w)
  unfolding cleanup_stale
  cleanup-IsKept exclude = record {
    phases = refl;
    writer = λ q h.
        rw (clean_writer-fresh exclude w.now w.writer (calm-writer w q calm h)) (s.has_writer q h);
    readers = λ q h.
        rw (lookup-clean_readers exclude w.now q w.readers (calm-reader w q calms h))
          (s.has_reader q h);
  }

pub entered_at :
    (p q : String) (ph : Phase) (w v : World)
    → v.phases ≡ w.phases
    → phase_of q (enter p ph v) ≡ (if p == q then ph else phase_of q w)
unfolding phase_of enter
entered_at p q ph w v e = rw (e, lookup-put p q ph w.phases) (ground arith)

pub read_owns : (ph : Phase) → holds_read ph ≡ true → owns_reader ph ≡ false → ⊥
read_owns idle h g = ground (arith, h, g)
read_owns _ h g = ground (arith, h, g)

pub write_owns : (ph : Phase) → holds_write ph ≡ true → owns_writer ph ≡ false → ⊥
write_owns idle h g = ground (arith, h, g)
write_owns _ h g = ground (arith, h, g)

pub reading_owns : (ph : Phase) → holds_read ph ≡ true → owns_reader ph ≡ true
reading_owns idle h = ground (arith, h)
reading_owns _ h = ground (arith, h)

-- A process that comes to own no more than before, behind files that are kept.
pub quiet :
    {p : String} (ph : Phase) {w v : World}
    → IsSound w
    → IsKept p w v
    → (owns_writer ph ≡ true → owns_writer (phase_of p w) ≡ true)
    → (owns_reader ph ≡ true → owns_reader (phase_of p w) ≡ true)
    → (holds_read ph ≡ true
        → holds_read (phase_of p w) ≡ true ⊎ (owns_writer (phase_of p w) ≡ true ⊎ IsUnowned w))
    → (holds_write ph ≡ true
        → holds_write (phase_of p w) ≡ true
          ⊎ ((q : String) → q ≢ p → holds_read (phase_of q w) ≡ false))
    → is_idle (phase_of p w) ≡ false
    → IsMove p ph w (enter p ph v)
unfolding enter phase_of
quiet {p} ph {w} {v} s kept ow own hr hw i = record {
  entered = λ q. entered_at p q ph w v kept.phases;
  claims = λ h. inl (ow h);
  writer_there = λ h. kept.writer p (ow h);
  writer_kept = λ q d h. kept.writer q h;
  reader_there = λ h. kept.readers p (own h);
  readers_kept = λ q d h. kept.readers q h;
  reads_alone = hr;
  writes_alone = hw;
  same_token = λ h. s.trimmed p i;
}

pub same-IsKept : (p : String) {w : World} → IsSound w → IsKept p w w
same-IsKept p s = record { phases = refl; writer = s.has_writer; readers = s.has_reader }

-- A process that comes to own nothing.
pub quietly :
    {p : String} (ph : Phase) {w v : World}
    → IsSound w
    → IsKept p w v
    → owns_writer ph ≡ false
    → owns_reader ph ≡ false
    → is_idle (phase_of p w) ≡ false
    → IsMove p ph w (enter p ph v)
quietly ph s kept a b i =
    quiet ph s kept (λ h. ground (arith, a, h)) (λ h. ground (arith, b, h))
      (λ h. absurd (read_owns ph h b)) (λ h. absurd (write_owns ph h a)) i

read_writer-fresh : (now : ℕ) (c : Option Content) → is_fresh now c ≡ true → (read_writer c).0 ≡ c
unfolding read_writer
read_writer-fresh now none h = refl
read_writer-fresh now (some (blank q)) h = ground (arith, h)
read_writer-fresh now (some (stored r)) h = refl

read_writer-absent :
    (now : ℕ) (c : Option Content) → (read_writer c).1 ≡ none → is_fresh now c ≡ false
unfolding read_writer
read_writer-absent now none h = refl
read_writer-absent now (some (blank q)) h = refl
read_writer-absent now (some (stored r)) h = ground (arith, h)

module _ (p : String) {w : World} (s : IsSound w) (calm : is_writer_calm w ≡ true) where
  pub read-IsKept : IsKept p w (record w { writer = (read_writer w.writer).0 })
  read-IsKept = record {
    phases = refl;
    writer =
        λ q h. rw (read_writer-fresh w.now w.writer (calm-writer w q calm h)) (s.has_writer q h);
    readers = s.has_reader;
  }

  pub absent-IsUnowned : (read_writer w.writer).1 ≡ none → IsUnowned w
  absent-IsUnowned h q = elim (Bool-cases (owns_writer (phase_of q w))) [
    | inl o ↦ ground (arith, calm-writer w q calm o, read_writer-absent w.now w.writer h)
    | inr o ↦ o
  ]

module _ (p : String) {w : World} (s : IsSound w) (calm : are_readers_calm w ≡ true) where
  pub list-IsKept :
      (exclude : String) → IsKept p w (record w { readers = (list_readers exclude w.readers).0 })
  list-IsKept exclude = record {
    phases = refl;
    writer = s.has_writer;
    readers = λ q h.
        rw (lookup-list_readers exclude w.now q w.readers (calm-reader w q calm h))
          (s.has_reader q h);
  }

  pub none_reading :
      (list_readers p w.readers).1 ≡ []
      → trim_space p ≡ p
      → (q : String) → q ≢ p
      → holds_read (phase_of q w) ≡ false
  none_reading h t q d = elim (Bool-cases (holds_read (phase_of q w))) [
    | inl o ↦
        let r = reading_owns (phase_of q w) o in
        absurd (
          d (
            list_readers_none p q w.now w.readers h (calm-reader w q calm r) (s.has_reader q r)
            ∙ t))
    | inr o ↦ o
  ]
