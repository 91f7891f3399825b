-- ===== src/Runtime/Rebuild.antt =====
-- The event log rebuilds the engine (execute and replayEvent in cmd/nana-runtime/main.go).
pub mod Same
pub mod Log
