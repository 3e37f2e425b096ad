-- ===== src/World.antt =====
-- The state that the methods of `Marble` share (src/lib.rs), and the monad in which they run. Each
-- atomic access is a step of the state; what other threads do between two steps is the subject of
-- LocationTable/Races.antt.
use marble.Prelude.{ℕ, ◌+◌, ◌%◌, Bool, Option}
use marble.Prelude.Bytes.{Bytes, u64_mod}
use marble.ConcurrentMap.{ConcurrentMap}
use marble.Crc32.{Crc32}
use marble.Disk.{Disk}
use marble.DiskLocation.{DiskLocation}
use marble.Exec.{Exec}
use marble.Metadata.{Metadata}
use marble.PageTable.{PageTable}
use marble.Trailer.{ZstdDict}
use marble.Zstd.{Zstd}

-- `file` is the inode of the open handle. `path` and `metadata` are none until they are installed.
pub record FileAndMetadata : Type 0 where
  pub file : ℕ
  pub location : DiskLocation
  pub path : Option Bytes
  pub metadata : Option Metadata
  pub live_objects : ℕ
  pub generation : ℕ
  pub rewrite_claim : Bool
  pub synced : Bool
  pub zstd_dict : ZstdDict

-- The crates that the program stands on.
pub record Crates (T M : Type 0) : Type 0 where
  pub pages : PageTable T
  pub maps : ConcurrentMap M FileAndMetadata
  pub crc : Crc32
  pub zstd : Zstd

-- `Marble`, with the counter of temporary names and the disk.
pub record World (T M : Type 0) : Type 0 where
  pub location_table : T
  pub max_object_id : ℕ
  pub fams : M
  pub next_file_lsn : ℕ
  pub decompressed_bytes_read : ℕ
  pub compressed_bytes_read : ℕ
  pub decompressed_bytes_written : ℕ
  pub compressed_bytes_written : ℕ
  pub high_level_user_bytes_written : ℕ
  pub tmp_counter : ℕ
  pub disk : Disk

-- `fetch_add` wraps around.
abbrev pub add64 : ℕ → ℕ → ℕ
add64 a b = (a + b) % u64_mod

-- A call of the system within the shared state.
abbrev pub on_disk : {T M A : Type 0} → Exec Disk A → Exec (World T M) A
on_disk c w = let (r, d) = c w.disk in (r, record w { disk = d })
