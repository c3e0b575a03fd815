-- ===== src/Storage.antt =====
-- src/opencortex/storage/cortex_storage.py: the files of a uri, and the relations of a uri.
pub mod Defs
pub mod Table
pub mod Targets
pub mod Relations
pub mod Tests
