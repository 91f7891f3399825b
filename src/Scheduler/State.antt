-- ===== src/Scheduler/State.antt =====
-- The data of the scheduler (internal/gocli/start_scheduler.go, and the state types of
-- internal/gocli/start_work.go). A record has the fields that the modelled code reads or writes; the
-- others are carried along unchanged. Numbers are natural numbers, times are texts, and a status is
-- the text that the state file holds. A Go map is an association list, and a missing key is read as
-- the zero value of the type.
mod Records
mod Maps
mod Results
unfoldable pub use Records.*
unfoldable pub use Maps.*
unfoldable pub use Results.*
unfoldable pub use nana.Prelude.{default_string}
