-- ===== src/Sync.antt =====
-- internal/sync: the engine that brings a source's data into the store.
pub mod Checks
pub mod Run
pub mod Csv
pub mod Ldif
pub mod Scheduler
mod Tests
