-- ===== src/Recovery.antt =====
-- src/recovery.rs: `open` rebuilds the state from the files of the heap directory.
pub mod Utf8
pub mod Directory
pub mod Locations
pub mod Names
pub mod Open
pub mod Order
pub mod Durable
pub mod Scan
pub mod Sorting
