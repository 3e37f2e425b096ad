-- ===== src/Gc/Collect.antt =====
-- The loops of `maintenance` (src/gc.rs) over one file: its objects, and the deletes of its trailer.
pub mod Live
pub mod Objects
pub mod Survivors
use marble.Prelude.{
  ℕ, zero, suc, ◌+◌, Bool, true, false, Option, none, some, List, [], ◌∷◌, length, take, drop,
  Outcome, ok, err, panic, invalid_data, unexpected_eof, guard, unwrap, ◌>>=◌, ◌>>◌, ltb, leb, not,
  ◌==◌, if◌then◌else◌,
}
use marble.Prelude.Assoc.{Assoc, insert}
use marble.Prelude.Bytes.{Bytes, from_le_bytes}
use marble.Config.{Config}
use marble.DiskLocation
use marble.DiskLocation.{DiskLocation}
use marble.FileMap.{same_location}
use marble.LocationTable
use marble.ObjectRecord.{hash, header_len}
use marble.PageTable.{PageTable}
use marble.ReadPath.{uninit_boxed_slice, same_bytes}
use marble.RelativeDiskLocation
use marble.Trailer.{Locations, ZstdDict}
use marble.World.{FileAndMetadata, Crates}
use marble.Zstd

-- The batch that will be rewritten, and where its objects lie now.
pub record Collected : Type 0 where
  pub batch : Assoc (Option Bytes)
  pub old_locations : Assoc DiskLocation

abbrev pub nothing_collected : Collected
nothing_collected = record { batch = []; old_locations = [] }

-- `read_exact` of a `Cursor`
unfoldable pub read_exact : Bytes → ℕ → ℕ → Outcome Bytes
read_exact buf offset len =
    if leb (offset + len) (length buf) then ok (take len (drop offset buf)) else err unexpected_eof

-- Puts an object aside, if the location table points to where it lies.
unfoldable pub collect : ℕ → Option Bytes → DiskLocation → DiskLocation → Collected → Collected
unfolding insert
collect object_id object rewritten_location current_location c =
    if same_location rewritten_location current_location
    then record {
      batch = insert object_id object c.batch;
      old_locations = insert object_id rewritten_location c.old_locations;
    }
    else c

module _ {T M : Type 0} (crates : Crates T M) (config : Config) (table : T)
    (fam : FileAndMetadata) where
  open crates use {pages, crc, zstd}

  -- One round of the loop over the objects: what was collected, and the bytes that the object takes.
  -- The object is decompressed only where it is collected.
  unfoldable pub collect_object : ZstdDict → Bytes → ℕ → Collected → Outcome (ℕ × Collected)
  collect_object zstd_dict file_buf offset c = do
    header ← read_exact file_buf offset header_len
    let crc_expected = take 4 header
    let pid_buf = take 8 (drop 4 header)
    let object_id = from_le_bytes pid_buf
    let len_buf = drop 12 header
    let len = from_le_bytes len_buf
    guard (ltb len config.max_object_size) invalid_data
    current_location ← unwrap (LocationTable.load pages table object_id)
    relative_location ← RelativeDiskLocation.new offset false
    rewritten_location ←
        RelativeDiskLocation.to_absolute relative_location (DiskLocation.lsn fam.location)
    uninit_boxed_slice len
    object_buf ← read_exact file_buf (offset + header_len) len
    guard (same_bytes crc_expected (hash crc len_buf pid_buf object_buf)) invalid_data
    if same_location rewritten_location current_location
        then (Zstd.decompress zstd zstd_dict object_buf >>= λ object. ok (
          header_len + len,
          collect object_id (some object) rewritten_location current_location c,
        ))
        else ok (header_len + len, c)

  -- `while offset < metadata.trailer_offset`. Each round takes 20 bytes at least, so `trailer_offset`
  -- rounds are enough, and the loop ends by its test.
  unfoldable pub collect_objects : ZstdDict → Bytes → ℕ → ℕ → ℕ → Collected → Outcome Collected
  collect_objects zstd_dict file_buf trailer_offset zero offset c = ok c
  collect_objects zstd_dict file_buf trailer_offset (suc rounds) offset c =
      if not (ltb offset trailer_offset) then ok c else do
        (size, c') ← collect_object zstd_dict file_buf offset c
        collect_objects zstd_dict file_buf trailer_offset rounds (offset + size) c'

module _ {T : Type 0} (pages : PageTable T) (table : T) (fam : FileAndMetadata) where
  unfoldable pub collect_deletes : Locations → Collected → Outcome Collected
  unfolding collect LocationTable.load RelativeDiskLocation.is_delete
      RelativeDiskLocation.to_absolute DiskLocation.lsn
  collect_deletes [] c = ok c
  collect_deletes ((object_id, relative_location) ∷ rest) c =
      if not (RelativeDiskLocation.is_delete relative_location) then collect_deletes rest c else do
        rewritten_location ←
            RelativeDiskLocation.to_absolute relative_location (DiskLocation.lsn fam.location)
        current_location ← unwrap (LocationTable.load pages table object_id)
        collect_deletes rest (collect object_id none rewritten_location current_location c)
