-- ===== src/WritePath/Objects.antt =====
-- Step 1 of `write_batch_inner` (src/writepath.rs): the objects of a batch go to a temporary file, one
-- record behind the other. The buffer of the writer is not modelled: each `write_all` reaches the file
-- at the cursor.
use marble.Prelude.{
  ℕ, ◌+◌, true, false, Option, none, some, [], ◌∷◌, length, Outcome, ok, unsupported, guard, unwrap,
  leb,
}
use marble.Prelude.Assoc.{Assoc, insert}
use marble.Prelude.Bytes.{Bytes, to_le_bytes}
use marble.Prelude.Int.{ℤ, pos, sub_ℕ, ◌+ℤ◌}
use marble.Config.{Config}
use marble.Disk
use marble.Exec.{Exec, ◌>>=◌, ◌>>◌, pure, lift}
use marble.ObjectRecord.{hash, header_len, len_buf}
use marble.RelativeDiskLocation
use marble.RelativeDiskLocation.{RelativeDiskLocation}
use marble.World.{Crates, World, on_disk}
use marble.Zstd.{Zstd}

-- `compressed_bytes` is how many bytes compression saved, an `i64`.
pub record Written : Type 0 where
  pub new_relative_locations : Assoc RelativeDiskLocation
  pub written_bytes : ℕ
  pub compressed_bytes : ℤ

abbrev pub nothing_written : Written
nothing_written = record {
  new_relative_locations = [];
  written_bytes = 0;
  compressed_bytes = pos 0;
}

-- The bytes that go to the file for an object: compressed, where there is a compressor.
unfoldable pub output_object : Zstd → Option (Bytes × ℤ) → Bytes → Outcome Bytes
output_object zstd none raw_object = ok raw_object
output_object zstd (some (dict, level)) raw_object = unwrap (zstd.compress dict level raw_object)

-- What compression saved on an object.
abbrev pub saved : Option (Bytes × ℤ) → Bytes → Bytes → ℤ
saved none raw_object output = pos 0
saved (some _) raw_object output = sub_ℕ (length raw_object) (length output)

module _ {T M : Type 0} (crates : Crates T M) (config : Config) where
  open crates use {crc, zstd}

  unfoldable pub write_object :
      Option (Bytes × ℤ) → ℕ → ℕ → Bytes → Written → Exec (World T M) Written
  write_object compressor file object_id raw_object written = do
    lift (guard (leb (length raw_object) config.max_object_size) unsupported)
    let relative_address = written.written_bytes
    output ← lift (output_object zstd compressor raw_object)
    relative_location ← lift (RelativeDiskLocation.new relative_address false)
    let pid_buf = to_le_bytes 8 object_id
    on_disk (Disk.write_all_at file relative_address (hash crc (len_buf output) pid_buf output))
    on_disk (Disk.write_all_at file (relative_address + 4) pid_buf)
    on_disk (Disk.write_all_at file (relative_address + 12) (len_buf output))
    on_disk (Disk.write_all_at file (relative_address + header_len) output)
    pure (record {
      new_relative_locations = insert object_id relative_location written.new_relative_locations;
      written_bytes = relative_address + (header_len + length output);
      compressed_bytes = written.compressed_bytes +ℤ saved compressor raw_object output;
    })

  unfoldable pub write_delete : ℕ → Written → Exec (World T M) Written
  write_delete object_id written = do
    relative_location ← lift (RelativeDiskLocation.new 0 true)
    pure (record written {
      new_relative_locations = insert object_id relative_location written.new_relative_locations;
    })

  -- The loop over the batch.
  unfoldable pub write_objects :
      Option (Bytes × ℤ) → ℕ → Assoc (Option Bytes) → Written → Exec (World T M) Written
  write_objects compressor file [] written = pure written
  write_objects compressor file ((object_id, none) ∷ rest) written = do
    written' ← write_delete object_id written
    write_objects compressor file rest written'
  write_objects compressor file ((object_id, some raw_object) ∷ rest) written = do
    written' ← write_object compressor file object_id raw_object written
    write_objects compressor file rest written'
