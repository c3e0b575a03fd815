-- ===== src/Buffer.antt =====
-- src/opencortex/store/session/buffer.py: the messages of a session that wait to be merged.
-- A key is a scoped session key (SessionKey of the source is a tuple of four texts), and a tool call
-- is any value. Times are microseconds. An asyncio.Lock is the key's membership in `locks`.
mod Conversation
mod Defs
pub mod Step
pub mod Loop
pub mod Flow
pub mod Calls
pub mod Runs
pub mod Idle
mod Tests
unfoldable pub use Conversation.*
unfoldable pub use Defs.*
