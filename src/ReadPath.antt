-- ===== src/ReadPath.antt =====
-- src/readpath.rs: `read` follows the location table to a file and checks the object that it finds.
pub mod Stored
use marble.Prelude.{
  ℕ, ◌+◌, ◌%◌, ◌^◌, Bool, Option, none, some, List, [], ◌∷◌, length, take, drop, Outcome, ok,
  assert, guard, invalid_data, ltb, ◌==◌, if◌then◌else◌,
}
use marble.Prelude.Bytes.{Bytes, u64_mod, from_le_bytes}
use marble.Disk
use marble.DiskLocation
use marble.DiskLocation.{DiskLocation}
use marble.Exec.{Exec, ◌>>=◌, ◌>>◌, pure, lift, gets, modify}
use marble.FileMap
use marble.LocationTable
use marble.ObjectRecord.{hash, header_len}
use marble.World.{FileAndMetadata, Crates, World, add64, on_disk}
use marble.Zstd

-- `uninit_boxed_slice`: `Layout::array` refuses what `isize` cannot hold.
unfoldable pub uninit_boxed_slice : ℕ → Outcome (Unit {0})
uninit_boxed_slice len = assert (ltb len (2 ^ 63))

-- Whether two checksums are the same four bytes.
unfoldable pub same_bytes : Bytes → Bytes → Bool
unfolding Disk.same_name
same_bytes a b = Disk.same_name a b

module _ {T M : Type 0} (crates : Crates T M) where
  open crates use {pages, crc, zstd}

  -- The part of `read` that knows the file and the offset in it.
  unfoldable pub read_object : ℕ → FileAndMetadata → ℕ → Exec (World T M) Bytes
  read_object object_id fam file_offset = do
    header_buf ← on_disk (Disk.read_exact_at fam.file file_offset header_len)
    let crc_expected = take 4 header_buf
    let pid_buf = take 8 (drop 4 header_buf)
    let len_buf = drop 12 header_buf
    let len = from_le_bytes len_buf
    lift (uninit_boxed_slice len)
    let object_offset = add64 file_offset header_len
    compressed_buf ← on_disk (Disk.read_exact_at fam.file object_offset len)
    lift (guard (same_bytes crc_expected (hash crc len_buf pid_buf compressed_buf)) invalid_data)
    lift (assert (object_id == from_le_bytes pid_buf))
    modify λ w. record w {
      compressed_bytes_read = add64 w.compressed_bytes_read (length compressed_buf);
    }
    decompressed_buf ← lift (Zstd.decompress zstd fam.zstd_dict compressed_buf)
    modify λ w. record w {
      decompressed_bytes_read = add64 w.decompressed_bytes_read (length decompressed_buf);
    }
    pure decompressed_buf

  unfoldable pub read_location : ℕ → DiskLocation → Exec (World T M) (Option Bytes)
  read_location object_id location = if DiskLocation.is_delete location then pure none else do
    fam ← FileMap.fam_for_location crates location
    let file_offset = FileMap.sub64 (DiskLocation.lsn location) (DiskLocation.lsn fam.location)
    object ← read_object object_id fam file_offset
    pure (some object)

  unfoldable pub read : ℕ → Exec (World T M) (Option Bytes)
  read object_id = do
    found ← gets λ w. LocationTable.load pages w.location_table object_id
    elim found [ none ↦ pure none | some location ↦ read_location object_id location ]
