-- ===== src/Facts.antt =====
-- The facts of a text, as src/opencortex/utils/facts.py finds, keeps and orders them.
pub mod Defs
pub mod Summaries
pub mod Keeping
pub mod Ordering
pub mod Tests
