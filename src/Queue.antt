-- ===== src/Queue.antt =====
-- src/opencortex/storage/cfs_queue.py: the table `queue_messages` and the methods of `CFSQueue`.
-- A connection's SQL is written out: SELECT by `find` and `oldest`, UPDATE by `update_where`.
-- Times are numbers of microseconds. `now` and the message id are arguments where the source calls
-- `time.time()` and `uuid4()`. The tie between rows of equal `created_at`, which SQL leaves open,
-- goes to the row that stands first.
mod Schema
mod Defs
mod Administration
pub mod Table
pub mod Claim
pub mod Rows
pub mod Calls
pub mod Validity
pub mod Exclusive
pub mod Counters
pub mod Retry
mod Tests
unfoldable pub use Schema.*
unfoldable pub use Defs.*
unfoldable pub use Administration.*
