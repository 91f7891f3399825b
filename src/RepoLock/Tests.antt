-- ===== src/RepoLock/Tests.antt =====
-- Concrete interleavings of processes that take the lock of one repository.
use nana.Prelude.{
  true, false, some, List, [], ◌∷◌, ◌≡◌, refl, lookup, put, trim_space, trim_left, trim_right,
  is_space,
}
use nana.RepoLock.Record.{read, write, build_record, record_stale}
use nana.RepoLock.World.{
  stored, blank, record_of, is_free, writing, World, phase_of, enter, remove, is_removed,
  clean_writer, clean_readers, cleanup_stale, read_writer, list_readers, retry, check_writer,
  create_reader, fill, create_writer, list_others, turn, ask, Event, turns, asks, downgrades, beats,
  ticks, step, run,
}
use nana.RepoLock.Fresh.{is_writer_calm, are_readers_calm, timely_run}
use nana.RepoLock.Exclusion.{new_world}
use nana.RepoLock.Abandoned.{IsAbandoned}
use nana.RepoLock.Alone.{five, asks-granted}

-- "a" takes the write lock while "b" asks to read, keeps it alive for a minute and downgrades it.
abbrev session : List Event
session =
    asks "a" write
    ∷ turns "a"
    ∷ asks "b" read
    ∷ turns "b"
    ∷ turns "a"
    ∷ turns "a"
    ∷ turns "b"
    ∷ turns "a"
    ∷ turns "a"
    ∷ ticks 20000000000
    ∷ beats "a"
    ∷ ticks 20000000000
    ∷ turns "b"
    ∷ downgrades "a"
    ∷ turns "a"
    ∷ turns "a"
    ∷ []

-- A check of writer.json while another process has created its file and not yet written it.
abbrev two_readers : List Event
two_readers =
    asks "a" read ∷ asks "b" read ∷ turns "b" ∷ turns "a" ∷ turns "a" ∷ turns "a" ∷ turns "b" ∷ []

two_readers_run : timely_run two_readers (new_world 0) ≡ true
unfolding run step turn ask timely_run is_writer_calm are_readers_calm phase_of enter remove
    is_removed clean_writer clean_readers cleanup_stale read_writer retry check_writer create_reader
    lookup put trim_space trim_left trim_right is_space
two_readers_run = refl

-- A process that reads the file of another between its creation and its write removes it, and both
-- come to hold the write lock.
abbrev interrupted : List Event
interrupted =
    asks "a" write
    ∷ asks "b" write
    ∷ turns "a"
    ∷ turns "a"
    ∷ turns "b"
    ∷ turns "b"
    ∷ turns "a"
    ∷ turns "b"
    ∷ turns "a"
    ∷ turns "a"
    ∷ turns "b"
    ∷ turns "b"
    ∷ []

two_writers :
    (phase_of "a" (run interrupted (new_world 0)) ≡ writing)
    × (phase_of "b" (run interrupted (new_world 0)) ≡ writing)
    × (timely_run interrupted (new_world 0) ≡ false)
unfolding run step turn ask timely_run is_writer_calm are_readers_calm phase_of enter is_removed
    clean_writer clean_readers cleanup_stale read_writer list_readers retry create_writer fill
    list_others record_stale build_record lookup put trim_space trim_left trim_right is_space
two_writers = (refl, refl, refl)

-- A writer that crashed a minute ago, and a reader that crashed before it had written its file.
abbrev left_behind : World
left_behind = record {
  writer = some (stored (record_of "a" write 0));
  readers = ("b", blank "b") ∷ [];
  now = 60000000000;
  phases = [];
}

left_behind-IsAbandoned : IsAbandoned left_behind
unfolding clean_writer clean_readers is_removed record_stale build_record trim_space trim_left
    trim_right is_space
left_behind-IsAbandoned = record { writer = refl; readers = refl }

left_behind_free : (trim_space "c" ≡ "c") × (is_free (phase_of "c" left_behind) ≡ true)
unfolding phase_of lookup trim_space trim_left trim_right is_space
left_behind_free = (refl, refl)

asks-granted_example : phase_of "c" (run (asks "c" write ∷ five "c") left_behind) ≡ writing
asks-granted_example =
    asks-granted "c" write left_behind left_behind_free.0 left_behind_free.1 left_behind-IsAbandoned
