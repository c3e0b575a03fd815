-- ===== src/Cone.antt =====
-- src/opencortex/vector/retrieval/cone.py: the neighbours of ranked seeds.
-- `strip` is str.strip of Python, and `relations` is what the record storage reads for a seed.
mod Defs
pub mod Neighbors
mod Tests
unfoldable pub use Defs.*
