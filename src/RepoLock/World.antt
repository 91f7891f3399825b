-- ===== src/RepoLock/World.antt =====
-- internal/gocli/repo_access_lock.go: the files of one repository's lock, and the processes that take
-- and release it. A process is named by its token, and one turn of it is one operation on the files;
-- cleanupStaleRepoAccessLocks and listRepoAccessReaders, which read several files, are one turn each.
-- No operation on a file fails, but for the creation of one that exists.
use nana.Prelude.{
  ℕ, ◌+◌, String, Bool, true, false, not, ◌&&◌, Option, none, some, List, [], ◌∷◌, ◌==◌, ltb,
  if◌then◌else◌, trim_space, lookup, put, is_some,
}
use nana.RepoLock.Record.{
  Mode, read, write, LockRecord, build_record, record_stale, acquire_timeout,
}

-- A file is blank between its creation, by the process named, and the write of its record.
pub data Content : Type 0 where
  blank : String → Content
  stored : LockRecord → Content

-- Where a process stands in acquireRepoAccessLock, Release and DowngradeToRead; with the time at
-- which it asked.
pub data Phase : Type 0 where
  idle reading writing busy crashed : Phase
  reader_cleaning reader_checking reader_creating reader_writing reader_confirming reader_undoing :
      ℕ → Phase
  writer_cleaning writer_creating writer_writing waiting_cleaning waiting_listing : ℕ → Phase
  writer_undoing downgrade_removing : Phase
  downgrade_creating downgrade_writing : ℕ → Phase

-- writer.json, the folder readers by the tokens in its file names, and the clock.
pub record World : Type 0 where
  pub writer : Option Content
  pub readers : List (String × Content)
  pub now : ℕ
  pub phases : List (String × Phase)

abbrev pub or_idle : Option Phase → Phase
or_idle none = idle
or_idle (some ph) = ph

unfoldable pub phase_of : String → World → Phase
phase_of p w = or_idle (lookup p w.phases)

unfoldable pub enter : String → Phase → World → World
enter p ph w = record w { phases = put p ph w.phases }

unfoldable pub remove : String → List (String × Content) → List (String × Content)
remove k [] = []
remove k ((j, c) ∷ m) = let rest = remove k m in if j == k then rest else (j, c) ∷ rest

-- A record that a process writes at a time. Its time of creation, which nothing reads, is that of the
-- write also where the heartbeat or DowngradeToRead keeps the first one.
abbrev pub record_of : String → Mode → ℕ → LockRecord
record_of p mode now =
    build_record p "" mode
      (record { token = p; backend = ""; run_id = ""; purpose = ""; label = "" }) now

-- Whether cleanupStaleRepoAccessLocks removes a file: one that does not decode is removed as it is read.
unfoldable pub is_removed : String → ℕ → Content → Bool
is_removed exclude now (blank q) = true
is_removed exclude now (stored r) =
    not (trim_space r.token == trim_space exclude) && record_stale now r

unfoldable pub clean_writer : String → ℕ → Option Content → Option Content
clean_writer exclude now none = none
clean_writer exclude now (some c) = if is_removed exclude now c then none else some c

unfoldable pub clean_readers : String → ℕ → List (String × Content) → List (String × Content)
clean_readers exclude now [] = []
clean_readers exclude now ((k, c) ∷ m) =
    let rest = clean_readers exclude now m in
    if is_removed exclude now c then rest else (k, c) ∷ rest

unfoldable pub cleanup_stale : String → World → World
cleanup_stale exclude w = record w {
  writer = clean_writer exclude w.now w.writer;
  readers = clean_readers exclude w.now w.readers;
}

-- readRepoAccessLockRecord, on writer.json: the file that it leaves, and what it reads.
unfoldable pub read_writer : Option Content → Option Content × Option LockRecord
read_writer none = (none, none)
read_writer (some (blank q)) = (none, none)
read_writer (some (stored r)) = (some (stored r), some r)

-- listRepoAccessReaders: the files that it leaves, and the records of the others.
unfoldable pub list_readers :
    String → List (String × Content) → List (String × Content) × List LockRecord
list_readers exclude [] = ([], [])
list_readers exclude ((k, blank q) ∷ m) = list_readers exclude m
list_readers exclude ((k, stored r) ∷ m) =
    let (kept, found) = list_readers exclude m in
    if trim_space r.token == trim_space exclude
    then ((k, stored r) ∷ kept, found)
    else ((k, stored r) ∷ kept, r ∷ found)

-- Behind an attempt that failed: the error of a busy lock past the deadline, else the loop again.
unfoldable pub retry : ℕ → ℕ → Phase → Phase
retry now asked again = if ltb (asked + acquire_timeout) now then busy else again

unfoldable pub check_writer : String → Phase → Phase → World → World
check_writer p present absent w =
    let (file, found) = read_writer w.writer in
    enter p (if is_some found then present else absent) (record w { writer = file })

-- createRepoAccessLockRecord opens a reader's file, if there is none.
unfoldable pub create_reader : String → Phase → Phase → World → World
create_reader p exists created w =
    if is_some (lookup p w.readers)
    then enter p exists w
    else enter p created (record w { readers = put p (blank p) w.readers })

-- The write goes to the file that the process has created, not to another one in its place.
unfoldable pub fill : String → LockRecord → Option Content → Option Content
fill p r none = none
fill p r (some (blank q)) = if q == p then some (stored r) else some (blank q)
fill p r (some (stored other)) = some (stored other)

abbrev pub put_some : String → Option Content → List (String × Content) → List (String × Content)
put_some p none m = m
put_some p (some c) m = put p c m

unfoldable pub write_reader : String → ℕ → Phase → World → World
unfolding fill
write_reader p time next w = enter p next (record w {
  readers = put_some p (fill p (record_of p read time) (lookup p w.readers)) w.readers;
})

unfoldable pub create_writer : String → ℕ → World → World
create_writer p asked w =
    if is_some w.writer
    then enter p (retry w.now asked (writer_cleaning asked))
        (record w { writer = (read_writer w.writer).0 })
    else enter p (writer_writing asked) (record w { writer = some (blank p) })

abbrev pub listed : List LockRecord → ℕ → ℕ → Phase
listed [] asked now = writing
listed (_ ∷ _) asked now =
    if ltb (asked + acquire_timeout) now then writer_undoing else waiting_cleaning asked

unfoldable pub list_others : String → ℕ → World → World
list_others p asked w =
    let (kept, found) = list_readers p w.readers in
    enter p (listed found asked w.now) (record w { readers = kept })

-- One operation of a process.
unfoldable pub turn : Phase → String → World → World
turn (reader_cleaning asked) p w = enter p (reader_checking asked) (cleanup_stale "" w)
turn (reader_checking asked) p w =
    check_writer p (retry w.now asked (reader_cleaning asked)) (reader_creating asked) w
turn (reader_creating asked) p w =
    create_reader p (retry w.now asked (reader_cleaning asked)) (reader_writing asked) w
turn (reader_writing asked) p w = write_reader p asked (reader_confirming asked) w
turn (reader_confirming asked) p w = check_writer p (reader_undoing asked) reading w
turn (reader_undoing asked) p w =
    enter p (retry w.now asked (reader_cleaning asked)) (record w { readers = remove p w.readers })
turn (writer_cleaning asked) p w = enter p (writer_creating asked) (cleanup_stale "" w)
turn (writer_creating asked) p w = create_writer p asked w
turn (writer_writing asked) p w =
    enter p (waiting_cleaning asked)
      (record w { writer = fill p (record_of p write asked) w.writer })
turn (waiting_cleaning asked) p w = enter p (waiting_listing asked) (cleanup_stale p w)
turn (waiting_listing asked) p w = list_others p asked w
turn writer_undoing p w = enter p busy (record w { writer = none })
turn (downgrade_creating time) p w = create_reader p writing (downgrade_writing time) w
turn (downgrade_writing time) p w = write_reader p time downgrade_removing w
turn downgrade_removing p w = enter p reading (record w { writer = none })
turn idle p w = w
turn reading p w = w
turn writing p w = w
turn busy p w = w
turn crashed p w = w

-- A call of acquireRepoAccessLock, with a token as buildRepoAccessLockRecord leaves it.
abbrev pub start : Mode → ℕ → Phase
start read now = reader_cleaning now
start write now = writer_cleaning now

abbrev pub is_free : Phase → Bool
is_free idle = true
is_free busy = true
is_free _ = false

unfoldable pub ask : Phase → String → Mode → World → World
ask ph p mode w = if is_free ph && trim_space p == p then enter p (start mode w.now) w else w

-- Release by a holder.
unfoldable pub release : Phase → String → World → World
release reading p w = enter p idle (record w { readers = remove p w.readers })
release writing p w = enter p idle (record w { writer = none })
release _ p w = w

-- The start of DowngradeToRead.
unfoldable pub downgrade : Phase → String → World → World
downgrade writing p w = enter p (downgrade_creating w.now) w
downgrade _ p w = w

-- The heartbeat writes the record again, also where the file has gone.
abbrev pub is_beating : Phase → Bool
is_beating (waiting_cleaning asked) = true
is_beating (waiting_listing asked) = true
is_beating writing = true
is_beating (downgrade_creating time) = true
is_beating (downgrade_writing time) = true
is_beating _ = false

unfoldable pub beat : Phase → String → World → World
beat reading p w = record w { readers = put p (stored (record_of p read w.now)) w.readers }
beat ph p w =
    if is_beating ph then record w { writer = some (stored (record_of p write w.now)) } else w

pub data Event : Type 0 where
  turns releases downgrades beats crashes : String → Event
  asks : String → Mode → Event
  ticks : ℕ → Event

unfoldable pub step : Event → World → World
step (turns p) w = turn (phase_of p w) p w
step (asks p mode) w = ask (phase_of p w) p mode w
step (releases p) w = release (phase_of p w) p w
step (downgrades p) w = downgrade (phase_of p w) p w
step (beats p) w = beat (phase_of p w) p w
step (crashes p) w = enter p crashed w
step (ticks n) w = record w { now = w.now + n }

unfoldable pub run : List Event → World → World
run [] w = w
run (e ∷ es) w = run es (step e w)
