-- ===== src/Store.antt =====
-- internal/storage/memory.go: the store in memory. Every operation runs under the store's lock, so
-- it is one step; the clock is read once in a step and is the argument `now`, and `fresh` stands
-- for the uuids that a step draws. Go visits a map in no fixed order: here it is a list, and what an
-- operation returns is sorted where the code sorts it.
pub mod State
pub mod Entries
pub mod Listing
pub mod Groups
pub mod Sources
pub mod Managers
pub mod History
pub mod Members
pub mod Tokens
pub mod Import
pub mod Duality
mod Tests
