-- ===== src/Index.antt =====
-- The writers that turn a stored record into the entries of the search indexes.
pub mod Payload
pub mod Points
pub mod Search
pub mod Keeping
pub mod Writing
pub mod Tree
pub mod Building
pub mod Linking
pub mod Dashes
pub mod Keys
pub mod Projection
pub mod Armed
pub mod Vectors
pub mod Kept
pub mod Tests
pub mod KeyTests
