-- ===== src/Catalog.antt =====
-- internal/catalog: the groups in memory, and the search in them.
pub mod Query
pub mod Cache
mod Tests
