-- ===== src/Retention.antt =====
-- internal/gocli/dismissed_retention.go.
pub mod Days
pub mod Items
mod Passes
mod Counted
mod Totals
mod Tests
