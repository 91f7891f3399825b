-- ===== src/ScoutJobs.antt =====
-- internal/gocli/scout_jobs.go: what users, finished runs and a restart do to the job of a scout.
pub mod Recovery
pub mod Actions
pub mod Stale
mod Events
mod Normal
mod Recovered
mod Tests
