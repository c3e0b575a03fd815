-- ===== src/Tokens.antt =====
-- src/opencortex/auth/token.py: the records of issued tokens.
-- The file of the records is their list, and its cache, which holds what was written last, is not
-- kept apart from it. A record is a dict of texts: a missing field and a null are `none`. The
-- signing library (decode) and the hash are parameters.
mod Defs
pub mod Saving
pub mod Revoking
pub mod Records
mod Tests
unfoldable pub use Defs.*
