-- ===== src/Lib.antt =====
-- Marble, a garbage-collecting object store (src/lib.rs): a map from 64-bit object ids to bytes, kept
-- in immutable files of the heap directory and in a table of locations in memory.
--
-- How the program works. A batch of objects is written to one file: a record for each object, then a
-- trailer with the ids and the offsets of the records. The file gets a number in the log, and an
-- object's location is that number plus its offset. `read` looks the location up in the location
-- table, finds the file with the next lower number in the file map, and reads the record there. A
-- later batch that has the same id leaves dead bytes behind; `maintenance` rewrites the files with
-- enough of them. `open` rebuilds table and file map from the files.
--
-- Which file models which part:
--   * DiskLocation, RelativeDiskLocation: src/disk_location.rs. A location is a record of its word.
--   * LocationTable: src/location_table.rs. `load`, `store`, `cas` and `fetch_max` are one access
--     each; LocationTable/Races puts accesses of several threads in sequence.
--   * FileMap: src/file_map.rs, `FileMap` and the destructors of `FileAndMetadata` and `DeferUnclaim`;
--     FileMap/Defrag is `files_to_defrag`, FileMap/Prune is `prune_empty_files`. Homes, Decrement,
--     Counts, Moves, Latest, Erase and Claims have theorems on the list of files, latest first.
--   * Metadata: `Metadata` of src/lib.rs, with the hexadecimal numbers of file names in Metadata/Hex.
--   * ObjectRecord: the layout of a record in src/writepath.rs, and `hash` of src/lib.rs.
--   * Trailer: src/trailer.rs.
--   * Zstd: src/zstd.rs, `from_samples` and `decompress`; Zstd/PerThread is `ThreadLocalDict`.
--   * Config: src/config.rs, and `default_partition_function` of src/lib.rs.
--   * WritePath: src/writepath.rs. Objects is step 1 of `write_batch_inner`, Install its step 3, Batch
--     the whole of it, and Shards is `write_batch` and `shard_batch`. Layout, Offsets and Readable have
--     theorems on step 1, Install/Exact and Install/Undo on step 3 and its rollback, and Batch/Begin,
--     Finish and Installing follow a user's batch through all steps on a disk without faults.
--   * ReadPath: src/readpath.rs.
--   * Recovery: src/recovery.rs. Directory is `read_storage_directory`, Utf8 what `to_str` takes,
--     Locations the loop over a trailer, and Open is `Config::open`, with the drop of the file map when it
--     fails; Scan, Sorting, Order and Durable have theorems on them.
--   * Gc: src/gc.rs. Gc/Collect has its two inner loops; Gc/Collect/Objects and Survivors
--     have theorems on the first.
--   * Store: what the program promises, as a relation between its state and a map from ids to bytes.
--     Table, Names, Moved and After have the argument about the state, Write, Batches and Promise put
--     it together with the code, Appended says what is new on the disk, Empty is `Config::open` of an
--     empty directory, Read is `read`, and Claimed, Prune and Pruned are `prune_empty_files`.
--   * Store/Durable: a log of files with which a state agrees, and `Config::open` on it. Listing and
--     Found are the directory, Words, Files and Install the three loops, Restart and Crash the whole;
--     Write is what a user's batch adds to the log; Corrupt is `Config::open` on a damaged file.
--   * Store/Sessions: batches, and processes that are killed between them.
--   * FileReads: `read_range_at` of src/lib.rs and `read_trailer` of src/trailer.rs. LocationHasher: the
--     hasher of src/lib.rs.
--   * FuzzModel: the run of fuzz/fuzz_targets/fuzz_model.rs, which compares the store to a map. Agrees
--     has the theorem on it; Generate is its generators, with theorems in Generated.
--   * DebugHistory: src/debug_history.rs.
--   * Stats: the other methods of `Marble` in src/lib.rs, with theorems in Ids and Live.
--   * World: the fields of `Marble` and `FileAndMetadata`; Exec: methods that change the state and may
--     fail or panic; Disk: the file system, with faults that are part of its state, so that every
--     system call may fail.
--
-- What stands behind interfaces, since the repository does not have its code: PageTable (the crate
-- `pagetable`), ConcurrentMap (`concurrent_map`), Crc32 (`crc32fast`) Zstd and Zstd/PerThread
-- (`zstd_safe`), and the source of the fuzzer's input in FuzzModel/Generate (`arbitrary`). Each is a
-- record of operations with the laws that its documentation promises. The files of Tests fill each.
--
-- Numbers. Integers are native natural numbers, and sums that may leave 64 bits are reduced modulo
-- 2 ^ 64 as in a release build. Slices, assertions, `unwrap` and `expect` panic as values.
--
-- Fuel. A decimal number of a `u64` has at most 20 digits and a hexadecimal one at most 16. `chunks`
-- gets the length of its buffer, and each round takes a byte or more. The loop of `maintenance` over
-- a file's objects gets the offset of the trailer, and each round takes 20 bytes or more.
--
-- What is not modelled: the creation and the lock of the heap directory and its marker files; the
-- buffer of `BufWriter` (each `write_all` reaches the file); the counters' memory orders (accesses are
-- sequentially consistent); the floating-point ratios of `stats`; the calls of the
-- feature `runtime_validation`; the tests, examples and benchmarks; the drop of a `Marble`, which
-- removes the files without live objects, but in the restart of the fuzz target. A `HashMap` is iterated
-- in the order of its insertions, since the program leaves the order open. The methods of `Marble` run
-- one at a time, and what threads do to each other is treated for the location table.
pub mod Prelude
pub mod DiskLocation
pub mod RelativeDiskLocation
pub mod Crc32
pub mod Trailer
pub mod Config
pub mod ConcurrentMap
pub mod Zstd
pub mod Disk
pub mod World
pub mod Exec
pub mod FileMap
pub mod ObjectRecord
pub mod WritePath
pub mod ReadPath
pub mod Recovery
pub mod FileReads
pub mod LocationHasher
pub mod Store
pub mod FuzzModel
pub mod DebugHistory
pub mod Gc
pub mod Stats
mod Tests
pub mod PageTable
pub mod Metadata
pub mod LocationTable
