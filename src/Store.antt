-- ===== src/Store.antt =====
-- The writes of a memory or of a resource: the ancestors, the record, its events and its tree.
pub mod Primary
pub mod Ancestors
pub mod Resolve
pub mod Flow
pub mod Announcing
pub mod Tests
