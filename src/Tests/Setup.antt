-- ===== src/Tests/Setup.antt =====
-- Concrete crates and a first state.
use marble.Prelude.{Option, ℕ, false, none, some, [], ◌≡◌, List, length}
use marble.Prelude.Bytes.{Bytes}
use marble.Prelude.Int.{ℤ}
use marble.ConcurrentMap.{Entries, sorted_entries}
use marble.Config.{Config}
use marble.Crc32.{sum_crc}
use marble.Disk.{Disk}
use marble.PageTable.{function_pages}
use marble.World.{FileAndMetadata, Crates, World}
use marble.Zstd.{Zstd}
use marble.Recovery.Open.{fresh}

-- Compression that changes nothing.
pub plain_law :
    (dict : Bytes) (level : ℤ) (raw out : Bytes) → some raw ≡ some out → some out ≡ some raw
plain_law dict level raw out e = cc

pub train_law :
    (max_size : ℕ) (buffer : Bytes) (sizes : List ℕ) (len : ℕ) (dict_buf : Bytes)
    → ◌≡◌ {A = Option (ℕ × Bytes)} (some (0, [])) (some (len, dict_buf))
    → len ≡ length dict_buf
train_law max_size buffer sizes len dict_buf e = cc e

abbrev pub plain_zstd : Zstd
plain_zstd = record {
  train = λ max_size buffer sizes. some (0, []);
  length-train = train_law;
  compress = λ dict level raw. some raw;
  decompress = λ dict out. some out;
  decompress-compress = plain_law;
}

abbrev pub crates : Crates (ℕ → ℕ) (Entries FileAndMetadata)
crates = record { pages = function_pages; maps = sorted_entries; crc = sum_crc; zstd = plain_zstd }

abbrev pub empty_disk : Disk
empty_disk = record { contents = λ i. []; next_inode = 0; names = []; faults = [] }

abbrev pub start : World (ℕ → ℕ) (Entries FileAndMetadata)
start = record (fresh crates 0 empty_disk) { next_file_lsn = 1 }

abbrev pub config : Config
config = record {
  path = [];
  zstd_compression_level = none;
  fsync_each_batch = false;
  target_file_size = 100;
  file_compaction_percent = 66;
  max_object_size = 50;
  small_file_cleanup_threshold = 64;
  partition_function = λ id size. 0;
  min_compaction_files = 1;
}
