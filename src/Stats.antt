-- ===== src/Stats.antt =====
-- The other methods of `Marble` in src/lib.rs: the counts of `stats`, `sync_all`, and the object ids.
pub mod Ids
pub mod Live
use marble.Prelude.{
  ℕ, zero, suc, ◌+◌, ◌%◌, Bool, true, false, Option, none, some, List, [], ◌∷◌, ◌++◌, if◌then◌else◌,
}
use marble.Disk
use marble.DiskLocation.{DiskLocation}
use marble.Exec.{Exec, ◌>>=◌, ◌>>◌, pure}
use marble.FileMap
use marble.LocationTable
use marble.World.{Crates, World, add64, on_disk}

-- The fields of `Stats` that are counts. The ratios are floats and are not modelled.
pub record Stats : Type 0 where
  pub live_objects : ℕ
  pub stored_objects : ℕ
  pub dead_objects : ℕ
  pub files : ℕ
  pub total_file_size : ℕ
  pub compressed_bytes_read : ℕ
  pub compressed_bytes_written : ℕ
  pub decompressed_bytes_read : ℕ
  pub decompressed_bytes_written : ℕ
  pub high_level_user_bytes_written : ℕ

abbrev pub is_none : Option DiskLocation → Bool
is_none none = true
is_none (some _) = false

abbrev pub is_some : Option DiskLocation → Bool
is_some none = false
is_some (some _) = true

module _ {T M : Type 0} (crates : Crates T M) where
  open crates use {pages}

  unfoldable pub stats : World T M → Stats
  unfolding FileMap.stats
  stats w =
      let (fams_len, total_file_size, stored_objects, live_objects) = FileMap.stats crates w in
      record {
        live_objects = live_objects;
        stored_objects = stored_objects;
        dead_objects = FileMap.sub64 stored_objects live_objects;
        files = fams_len;
        total_file_size = total_file_size;
        compressed_bytes_read = w.compressed_bytes_read;
        compressed_bytes_written = w.compressed_bytes_written;
        decompressed_bytes_read = w.decompressed_bytes_read;
        decompressed_bytes_written = w.decompressed_bytes_written;
        high_level_user_bytes_written = w.high_level_user_bytes_written;
      }

  unfoldable pub sync_all : Exec (World T M) (Unit {0})
  unfolding FileMap.sync_all Disk.sync
  sync_all = do
    synced_files ← FileMap.sync_all crates
    if synced_files then on_disk Disk.sync else pure tt

  -- The ids from 0 up to, and without, the bound that pass the test on their location.
  unfoldable pub ids_below : (Option DiskLocation → Bool) → T → ℕ → List ℕ
  unfolding LocationTable.load
  ids_below test t zero = []
  ids_below test t (suc n) =
      let below = ids_below test t n in
      if test (LocationTable.load pages t n) then below ++ (n ∷ []) else below

  -- `0..=max` ends at `max`; the first part of the result is `max + 1`, which wraps around.
  unfoldable pub free_object_ids : World T M → ℕ × List ℕ
  unfolding ids_below
  free_object_ids w =
      (add64 w.max_object_id 1, ids_below is_none w.location_table (suc w.max_object_id))

  unfoldable pub allocated_object_ids : World T M → List ℕ
  unfolding ids_below
  allocated_object_ids w = ids_below is_some w.location_table (suc w.max_object_id)
