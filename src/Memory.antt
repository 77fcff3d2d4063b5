-- ===== src/Memory.antt =====
-- internal/memory: what the memory store keeps, as bytes and as queries.
pub mod Vectors
pub mod Query
pub mod Cipher
pub mod Store
pub mod Calls
pub mod Scores
pub mod Recall
mod Tests
