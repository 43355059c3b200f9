-- ===== src/Upgrade.antt =====
-- internal/upgrade: the workspace upgrade, with its journal, its lock, its backups and its
-- migrations between schema versions.
mod Tests
pub mod Machine
pub mod Detect
pub mod Lock
pub mod Backup
pub mod Plan
pub mod Migrations
pub mod Run
