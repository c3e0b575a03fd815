-- ===== src/Wait.antt =====
-- src/opencortex/store/event/wait.py: the progress that `StoreWaitTracker` keeps for each request.
-- Each method holds the lock for its whole body, so it is one step. Times are microseconds, and
-- `now` is an argument where the source calls `time.time()`. The context variable with the current
-- request id is an argument of the worker's `enqueue`.
mod Defs
pub mod Refinement
pub mod Accounting
pub mod Lifecycle
mod Tests
unfoldable pub use Defs.*
