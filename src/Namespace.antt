-- ===== src/Namespace.antt =====
-- src/opencortex/storage/namespace.py and src/opencortex/utils/uri.py: the uris of records.
-- A PurePosixPath is the list of its parts; `uuid4().hex` is an argument.
mod Defs
pub mod Chain
pub mod Simple
mod Tests
unfoldable pub use Defs.*
