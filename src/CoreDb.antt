-- ===== src/CoreDb.antt =====
-- packages/core-db: ranges of coordinates.
pub mod Range
pub mod BlockRanges
pub mod RangeBucket
pub mod MerkleTree
mod Examples
