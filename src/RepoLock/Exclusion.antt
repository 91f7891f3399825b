-- ===== src/RepoLock/Exclusion.antt =====
-- The promise of internal/gocli/repo_access_lock.go over any interleaving of the operations of any
-- processes: a holder of the write lock holds it alone.
use nana.Prelude.{ℕ, none, []}
use nana.RepoLock.World.{World}

-- No files and no processes.
abbrev pub new_world : ℕ → World
new_world now = record { writer = none; readers = []; now = now; phases = [] }
