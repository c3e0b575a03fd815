-- ===== src/Records.antt =====
-- The records of the store flows: src/opencortex/store/schemas/records.py, raw_records.py and
-- store.py, and the events of src/opencortex/store/event/events.py that are published for them.
mod Defs
pub mod Events
unfoldable pub use Defs.*
