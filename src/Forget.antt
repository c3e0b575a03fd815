-- ===== src/Forget.antt =====
-- src/opencortex/store/forget.py: what a request to forget may remove.
mod Defs
pub mod Visibility
mod Tests
unfoldable pub use Defs.*
