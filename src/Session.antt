-- ===== src/Session.antt =====
-- src/opencortex/store/session/store.py, merger.py and ender.py: the turns of a conversation, their
-- merge into chunks, and the end of a session.
-- The record writer, the embedder, the vector store and the document tree are an interface
-- (Services) over a world of their own; a call of the flows returns a result and the state after it,
-- also where it raises.
mod Defs
mod Immediate
mod Merge
mod Finish
pub mod Rules
pub mod Opening
pub mod Turns
pub mod Draining
pub mod Looping
pub mod Ending
mod Tests
unfoldable pub use Defs.*
unfoldable pub use Immediate.*
unfoldable pub use Merge.*
unfoldable pub use Finish.*
