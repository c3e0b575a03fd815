-- ===== src/Document.antt =====
-- src/opencortex/store/document_tree.py: the chunks of a document as records below a root.
mod Defs
mod Writes
pub mod Uris
pub mod Rooting
pub mod Announcing
mod Tests
unfoldable pub use Defs.*
unfoldable pub use Writes.*
