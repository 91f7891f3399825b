-- ===== src/RepoLock/Sound.antt =====
-- What holds of the lock files and the processes between any two operations
-- (internal/gocli/repo_access_lock.go), and the moves that keep it.
use nana.Prelude.{
  String, Bool, true, false, Option, none, some, ◌==◌, if◌then◌else◌, trim_space, lookup, is_some,
  ◌≡◌, ◌≢◌, ◌⊎◌, arith,
}
use nana.RepoLock.World.{
  Content, blank, stored, Phase, idle, reading, writing, crashed, reader_writing, reader_confirming,
  reader_undoing, writer_writing, waiting_cleaning, waiting_listing, writer_undoing,
  downgrade_removing, downgrade_creating, downgrade_writing, World, phase_of,
}

-- The phases in which writer.json is the process's own.
abbrev pub owns_writer : Phase → Bool
owns_writer (writer_writing asked) = true
owns_writer (waiting_cleaning asked) = true
owns_writer (waiting_listing asked) = true
owns_writer writer_undoing = true
owns_writer writing = true
owns_writer (downgrade_creating time) = true
owns_writer (downgrade_writing time) = true
owns_writer downgrade_removing = true
owns_writer _ = false

-- The phases in which the reader's file with the process's token is its own.
abbrev pub owns_reader : Phase → Bool
owns_reader (reader_writing asked) = true
owns_reader (reader_confirming asked) = true
owns_reader (reader_undoing asked) = true
owns_reader reading = true
owns_reader (downgrade_writing time) = true
owns_reader downgrade_removing = true
owns_reader _ = false

-- The holder of the write lock, which a downgrade keeps until its last operation.
abbrev pub holds_write : Phase → Bool
holds_write writing = true
holds_write (downgrade_creating time) = true
holds_write (downgrade_writing time) = true
holds_write downgrade_removing = true
holds_write _ = false

abbrev pub holds_read : Phase → Bool
holds_read reading = true
holds_read _ = false

-- A file that is there, and blank or with the token.
abbrev pub names : String → Option Content → Bool
names p none = false
names p (some (blank q)) = true
names p (some (stored r)) = trim_space r.token == p

abbrev pub is_idle : Phase → Bool
is_idle idle = true
is_idle crashed = true
is_idle _ = false

pub record IsSound (w : World) : Type 0 where
  pub one_writer :
      (p q : String) → owns_writer (phase_of p w) ≡ true → owns_writer (phase_of q w) ≡ true → p ≡ q
  pub has_writer : (p : String) → owns_writer (phase_of p w) ≡ true → is_some w.writer ≡ true
  pub has_reader :
      (p : String) → owns_reader (phase_of p w) ≡ true → names p (lookup p w.readers) ≡ true
  pub exclusive :
      (p q : String) → holds_write (phase_of p w) ≡ true → holds_read (phase_of q w) ≡ false
  pub trimmed : (p : String) → is_idle (phase_of p w) ≡ false → trim_space p ≡ p

-- No process owns writer.json.
abbrev pub IsUnowned : World → Type 0
IsUnowned w = (q : String) → owns_writer (phase_of q w) ≡ false

-- What an operation of one process may do: its phase becomes another, and the files may change.
pub record IsMove (p : String) (ph : Phase) (w v : World) : Type 0 where
  pub entered : (q : String) → phase_of q v ≡ (if p == q then ph else phase_of q w)
  -- A new owner of writer.json finds it without an owner, and the file goes with its owner alone.
  pub claims : owns_writer ph ≡ true → owns_writer (phase_of p w) ≡ true ⊎ IsUnowned w
  pub writer_there : owns_writer ph ≡ true → is_some v.writer ≡ true
  pub writer_kept :
      (q : String) → q ≢ p → owns_writer (phase_of q w) ≡ true → is_some v.writer ≡ true
  pub reader_there : owns_reader ph ≡ true → names p (lookup p v.readers) ≡ true
  pub readers_kept :
      (q : String) → q ≢ p → owns_reader (phase_of q w) ≡ true → names q (lookup q v.readers) ≡ true
  -- A new reader finds writer.json without an owner or its own, and a new writer no other reader.
  pub reads_alone :
      holds_read ph ≡ true
      → holds_read (phase_of p w) ≡ true ⊎ (owns_writer (phase_of p w) ≡ true ⊎ IsUnowned w)
  pub writes_alone :
      holds_write ph ≡ true
      → holds_write (phase_of p w) ≡ true
        ⊎ ((q : String) → q ≢ p → holds_read (phase_of q w) ≡ false)
  pub same_token : is_idle ph ≡ false → trim_space p ≡ p

pub holds-owns : (ph : Phase) → holds_write ph ≡ true → owns_writer ph ≡ true
holds-owns (idle) h = ground (arith, h)
holds-owns _ h = ground (arith, h)

pub holds_not_read : (ph : Phase) → holds_write ph ≡ true → holds_read ph ≡ false
holds_not_read idle h = ground (arith, h)
holds_not_read _ h = ground (arith, h)
