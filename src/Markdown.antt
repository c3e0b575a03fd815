-- ===== src/Markdown.antt =====
-- src/opencortex/parse/parsers/markdown.py, with the chunk and the estimate of
-- src/opencortex/parse/base.py: how a document is cut into chunks.
mod Defs
mod Sections
mod Split
mod Chunks
mod Parse
pub mod Tiling
pub mod Hierarchy
pub mod Pieces
pub mod Splitting
pub mod Trees
pub mod Grouping
pub mod Depth
mod Tests
unfoldable pub use Defs.*
unfoldable pub use Sections.*
unfoldable pub use Split.*
unfoldable pub use Chunks.*
unfoldable pub use Parse.*
