-- ===== src/Update.antt =====
-- internal/update: how the CLI decides whether a newer version exists and whether it may run.
mod Tests
pub mod Version
pub mod Cache
pub mod Decision
