-- ===== src/RepoLock/Fresh.antt =====
-- The lock files that cleanupStaleRepoAccessLocks and the reads of
-- internal/gocli/repo_access_lock.go leave alone: those that decode and are not stale.
use nana.Prelude.{
  ℕ, String, Bool, true, false, not, ◌&&◌, Option, none, some, List, [], ◌∷◌, ◌==◌, if◌then◌else◌,
  trim_space, lookup, ◌≡◌, refl, arith, eq_iff,
}
use nana.RepoLock.Record.{record_stale}
use nana.RepoLock.World.{
  Content, blank, stored, Phase, World, phase_of, remove, is_removed, clean_writer, clean_readers,
  list_readers, idle, reader_cleaning, reader_checking, reader_confirming, writer_cleaning,
  writer_creating, waiting_cleaning, waiting_listing, Event, turns, step, or_idle,
}
use nana.RepoLock.Sound.{owns_writer, owns_reader, names}

abbrev pub is_fresh : ℕ → Option Content → Bool
is_fresh now none = false
is_fresh now (some (blank q)) = false
is_fresh now (some (stored r)) = not (record_stale now r)

abbrev writer_entry : World → String → Phase → Bool
writer_entry w p ph = if owns_writer ph then is_fresh w.now w.writer else true

abbrev reader_entry : World → String → Phase → Bool
reader_entry w p ph = if owns_reader ph then is_fresh w.now (lookup p w.readers) else true

abbrev all_entries : (String → Phase → Bool) → List (String × Phase) → Bool
all_entries test [] = true
all_entries test ((p, ph) ∷ m) = test p ph && all_entries test m

-- If a process owns writer.json, it decodes and is not stale.
unfoldable pub is_writer_calm : World → Bool
is_writer_calm w = all_entries (writer_entry w) w.phases

-- Every reader's file that a process owns decodes and is not stale.
unfoldable pub are_readers_calm : World → Bool
are_readers_calm w = all_entries (reader_entry w) w.phases

-- The phases whose next operation reads writer.json.
abbrev pub reads_writer : Phase → Bool
reads_writer (reader_cleaning asked) = true
reads_writer (reader_checking asked) = true
reads_writer (reader_confirming asked) = true
reads_writer (writer_cleaning asked) = true
reads_writer (writer_creating asked) = true
reads_writer (waiting_cleaning asked) = true
reads_writer _ = false

-- The phases whose next operation reads the files of all readers.
abbrev pub reads_readers : Phase → Bool
reads_readers (reader_cleaning asked) = true
reads_readers (writer_cleaning asked) = true
reads_readers (waiting_cleaning asked) = true
reads_readers (waiting_listing asked) = true
reads_readers _ = false

abbrev pub is_timely : Event → World → Bool
is_timely (turns p) w =
    (if reads_writer (phase_of p w) then is_writer_calm w else true)
    && (if reads_readers (phase_of p w) then are_readers_calm w else true)
is_timely _ w = true

-- Heartbeats and the writes of new records come before the next read of lock files.
unfoldable pub timely_run : List Event → World → Bool
timely_run [] w = true
timely_run (e ∷ es) w = is_timely e w && timely_run es (step e w)

all_entries-lookup :
    (test : String → Phase → Bool) (m : List (String × Phase)) (p : String)
    → test p idle ≡ true
    → all_entries test m ≡ true
    → test p (or_idle (lookup p m)) ≡ true
unfolding lookup
all_entries-lookup test [] p i h = i
all_entries-lookup test ((k, ph) ∷ m) p i h =
    ground (arith, eq_iff k p, all_entries-lookup test m p i)

if_owned : (a x : Bool) → (if a then x else true) ≡ true → a ≡ true → x ≡ true
if_owned a x h e = ground (arith, h, e)

pub calm-writer :
    (w : World) (p : String)
    → is_writer_calm w ≡ true
    → owns_writer (phase_of p w) ≡ true
    → is_fresh w.now w.writer ≡ true
unfolding is_writer_calm phase_of
calm-writer w p h o =
    if_owned (owns_writer (phase_of p w)) (is_fresh w.now w.writer)
      (all_entries-lookup (writer_entry w) w.phases p refl h) o

pub calm-reader :
    (w : World) (p : String)
    → are_readers_calm w ≡ true
    → owns_reader (phase_of p w) ≡ true
    → is_fresh w.now (lookup p w.readers) ≡ true
unfolding are_readers_calm phase_of
calm-reader w p h o =
    if_owned (owns_reader (phase_of p w)) (is_fresh w.now (lookup p w.readers))
      (all_entries-lookup (reader_entry w) w.phases p refl h) o

pub clean_writer-fresh :
    (exclude : String) (now : ℕ) (c : Option Content)
    → is_fresh now c ≡ true
    → clean_writer exclude now c ≡ c
unfolding clean_writer is_removed
clean_writer-fresh exclude now none h = refl
clean_writer-fresh exclude now (some (blank q)) h = ground (arith, h)
clean_writer-fresh exclude now (some (stored r)) h = ground (arith, h)

pub lookup-clean_readers :
    (exclude : String) (now : ℕ) (k : String) (m : List (String × Content))
    → is_fresh now (lookup k m) ≡ true
    → lookup k (clean_readers exclude now m) ≡ lookup k m
unfolding clean_readers is_removed lookup
lookup-clean_readers exclude now k [] h = refl
lookup-clean_readers exclude now k ((j, blank q) ∷ m) h =
    ground (arith, lookup-clean_readers exclude now k m)
lookup-clean_readers exclude now k ((j, stored r) ∷ m) h =
    ground (arith, lookup-clean_readers exclude now k m)

pub lookup-remove :
    (j k : String) (m : List (String × Content))
    → lookup j (remove k m) ≡ (if k == j then none else lookup j m)
unfolding lookup remove
lookup-remove j k [] = ground arith
lookup-remove j k ((i, c) ∷ m) =
    ground (arith, eq_iff i k, eq_iff i j, eq_iff k j, lookup-remove j k m)

pub lookup-list_readers :
    (exclude : String) (now : ℕ) (k : String) (m : List (String × Content))
    → is_fresh now (lookup k m) ≡ true
    → lookup k (list_readers exclude m).0 ≡ lookup k m
unfolding list_readers lookup
lookup-list_readers exclude now k [] h = refl
lookup-list_readers exclude now k ((j, blank q) ∷ m) h =
    ground (arith, lookup-list_readers exclude now k m)
lookup-list_readers exclude now k ((j, stored r) ∷ m) h =
    ground (arith, lookup-list_readers exclude now k m)

-- A listing that finds no other has no file of another process.
pub list_readers_none :
    (exclude k : String) (now : ℕ) (m : List (String × Content))
    → (list_readers exclude m).1 ≡ []
    → is_fresh now (lookup k m) ≡ true
    → names k (lookup k m) ≡ true
    → k ≡ trim_space exclude
unfolding list_readers lookup
list_readers_none exclude k now [] e f n = ground (arith, f)
list_readers_none exclude k now ((j, blank q) ∷ m) e f n =
    ground (arith, list_readers_none exclude k now m e)
list_readers_none exclude k now ((j, stored r) ∷ m) e f n = ground (
  arith,
  eq_iff (trim_space r.token) (trim_space exclude),
  eq_iff (trim_space r.token) k,
  list_readers_none exclude k now m,
)
