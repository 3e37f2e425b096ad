-- ===== src/WritePath.antt =====
-- src/writepath.rs: `write_batch` shards a batch and writes one file for each shard. A file is written
-- under a temporary name (Objects, Batch), gets its number in the log, is renamed, and its objects'
-- locations go into the location table (Install).
pub mod Objects
pub mod Install
pub mod Layout
pub mod Offsets
pub mod Readable
pub mod Batch
pub mod Shards
