-- ===== src/RepoLock.antt =====
-- internal/gocli/repo_access_lock.go: the files by which processes share a repository.
pub mod Record
pub mod World
mod Sound
mod Keeps
mod Fresh
mod Moves
mod Turns
mod Steps
pub mod Exclusion
mod Abandoned
mod Alone
mod Tests
