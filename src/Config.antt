-- ===== src/Config.antt =====
-- src/config.rs, and the default partition of src/lib.rs.
pub mod Laws
use marble.Prelude.{
  ℕ, ◌+◌, ◌-◌, ◌*◌, ◌^◌, Bool, true, false, Option, none, some, ◌&&◌, [], Outcome, ok, err,
  unsupported, guard, ◌>>=◌, ◌>>◌, not, leb, ltb, ◌==◌, if◌then◌else◌,
}
use marble.Prelude.Bytes.{Bytes}
use marble.Prelude.Int.{ℤ}

pub record Config : Type 0 where
  pub path : Bytes
  pub zstd_compression_level : Option ℤ
  pub fsync_each_batch : Bool
  pub target_file_size : ℕ
  pub file_compaction_percent : ℕ
  pub max_object_size : ℕ
  pub small_file_cleanup_threshold : ℕ
  pub partition_function : ℕ → ℕ → ℕ
  pub min_compaction_files : ℕ

abbrev page_min : ℕ
page_min = 2048

abbrev subpage_max : ℕ
subpage_max = page_min - 1

abbrev page_max : ℕ
page_max = 16 * 1024

abbrev block_min : ℕ
block_min = page_max + 1

abbrev block_max : ℕ
block_max = 4 * 1024 * 1024

unfoldable pub default_partition_function : ℕ → ℕ → ℕ
default_partition_function object_id size =
    if leb size subpage_max
    then 0
    else if leb page_min size && leb size page_max
    then 1
    else if leb block_min size && leb size block_max
    then 2
    else 3

unfoldable pub default : Config
default = record {
  path = [];
  target_file_size = 2 ^ 28;
  file_compaction_percent = 66;
  partition_function = default_partition_function;
  max_object_size = 16 * 1024 * 1024 * 1024;
  small_file_cleanup_threshold = 64;
  min_compaction_files = 2;
  fsync_each_batch = false;
  zstd_compression_level = none;
}

unfoldable pub validate : Config → Outcome (Unit {0})
validate config = do
  guard (not (config.target_file_size == 0)) unsupported
  guard (not (ltb 99 config.file_compaction_percent)) unsupported
  ok tt
