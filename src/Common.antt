-- ===== src/Common.antt =====
-- src/opencortex/store/common.py: the helpers that the store flows share.
-- `none` is the TypeError of Python on a value that cannot be iterated over.
mod Defs
pub mod Merging
mod Tests
unfoldable pub use Defs.*
