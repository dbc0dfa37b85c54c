-- ===== src/Common.antt =====
-- internal/common: the spelling of ids and tokens, globs, relations and the checks on ids.
pub mod Types
mod Tests
pub mod Strings
pub mod Quote
pub mod Token
pub mod Glob
pub mod Relations
pub mod Validate
