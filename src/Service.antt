-- ===== src/Service.antt =====
-- internal/groupmgmt: the service that the handlers call.
pub mod State
pub mod Access
pub mod Cycle
pub mod Catalog
pub mod Membership
pub mod Managing
pub mod Reading
pub mod Browse
pub mod Guards
mod Tests
