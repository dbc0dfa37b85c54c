-- ===== src/Web.antt =====
-- internal/webserver: what a request is answered, and who may send it.
pub mod Reply
pub mod Auth
pub mod Groups
pub mod Manage
pub mod Sources
pub mod Person
mod Tests
