-- ===== src/Runtime/Durable.antt =====
-- The state directory keeps the engine between two `exec` commands (cmd/nana-runtime/main.go).
pub mod Held
pub mod Marks
pub mod Writes
pub mod Exec
