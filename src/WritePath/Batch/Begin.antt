-- ===== src/WritePath/Batch/Begin.antt =====
-- `write_batch_inner` (src/writepath.rs) up to the place where the file gets its number, on a disk that
-- has no fault to come: the objects are in a new temporary file.
use marble.Prelude.{
  ℕ, ◌+◌, ◌-◌, ◌^◌, ◌≤◌, ◌<◌, ◌≡◌, refl, ap, ◌∙◌, arith, false, Option, none, [], length, ok,
  ==_refl, if◌then◌else◌, Bool-cases, inl, inr, le→leb,
}
use marble.Prelude.Assoc.{Assoc, Distinct, Disjoint-nil}
use marble.Prelude.Bytes.{Bytes}
use marble.Prelude.Int.{ℤ, pos, pos_part, neg_part, ◌+ℤ◌}
use marble.Config.{Config}
use marble.Disk
use marble.Disk.{update}
use marble.Disk.Calm.{IsCalm, sync_calm, opened, open_file_new, appended, appended-IsCalm}
use marble.Exec.{Exec, ◌>>=◌, pure}
use marble.FileMap
use marble.RelativeDiskLocation.{RelativeDiskLocation}
use marble.World.{Crates, World, add64, on_disk}
use marble.WritePath.Batch.{
  Compression, is_empty, tmp_file_name, next_tmp_name, choose_compression, to_u64, count_written,
  releasing, install_and_finish, write_batch_inner,
}
use marble.WritePath.Layout.{
  file_bytes, relative_locations, with_appended, Writable, write_objects-Ends,
}
use marble.WritePath.Objects.{Written, nothing_written, write_objects}
use marble.WritePath.Offsets.{length-relative_locations}

-- What the loop returns for a batch.
abbrev pub written_batch : (Bytes → Bytes) → Assoc (Option Bytes) → ℕ → ℤ → Written
written_batch encode objects bytes saved_bytes = record {
  new_relative_locations = relative_locations encode 0 objects;
  written_bytes = bytes;
  compressed_bytes = saved_bytes;
}

total_bytes :
    (bytes : ℕ) (saved_bytes : ℤ)
    → neg_part saved_bytes ≤ bytes + pos_part saved_bytes
    → (total : ℕ) × (to_u64 (pos bytes +ℤ saved_bytes) ≡ ok total)
unfolding ◌+ℤ◌
total_bytes bytes saved_bytes h = (
  bytes + pos_part saved_bytes - (0 + neg_part saved_bytes),
  rw (le→leb (0 + neg_part saved_bytes) (bytes + pos_part saved_bytes) (omega (arith, h))) refl,
)

module _ {T M : Type 0} (crates : Crates T M) (config : Config) where
  open crates use {crc, zstd}

  -- The rest of `write_batch_inner` for a user's batch.
  abbrev pub insert_and_finish :
      Assoc (Option Bytes) → Bytes → ℕ → Compression → Written → Exec (World T M) (Unit {0})
  insert_and_finish objects tmp_path file compression written = do
    (base, claims) ←
        FileMap.insert crates config file written.written_bytes
          (length written.new_relative_locations) 0 false compression.decompressor
    releasing crates config claims
        (install_and_finish crates config objects 0 [] tmp_path file compression written base)

  -- The state then: a file with the objects, and the counters ahead.
  abbrev pub begun : World T M → Bytes → ℕ → World T M
  begun w bytes total = record w {
    tmp_counter = add64 w.tmp_counter 1;
    compressed_bytes_written = add64 w.compressed_bytes_written (length bytes);
    decompressed_bytes_written = add64 w.decompressed_bytes_written total;
    disk = appended (opened w.disk (tmp_file_name w.tmp_counter)) w.disk.next_inode bytes;
  }

  next_tmp_name_lem :
      (w : World T M)
      → next_tmp_name crates config w
        ≡ (ok (tmp_file_name w.tmp_counter), record w { tmp_counter = add64 w.tmp_counter 1 })
  unfolding next_tmp_name
  next_tmp_name_lem w = refl

  count_written_lem :
      (written : Written) (total : ℕ) (w : World T M)
      → to_u64 (pos written.written_bytes +ℤ written.compressed_bytes) ≡ ok total
      → count_written crates config written w ≡ (
        ok tt,
        record w {
          compressed_bytes_written = add64 w.compressed_bytes_written written.written_bytes;
          decompressed_bytes_written = add64 w.decompressed_bytes_written total;
        },
      )
  unfolding count_written
  count_written_lem written total w e = rw e refl

  maybe_sync :
      (w : World T M)
      → IsCalm w.disk
      → (if config.fsync_each_batch then on_disk Disk.sync else pure tt) w ≡ (ok tt, w)
  maybe_sync w calm = elim (Bool-cases config.fsync_each_batch) [
    | inl e ↦ rw (e, sync_calm w.disk calm) refl
    | inr e ↦ rw e refl
  ]

  write_new_file :
      (encode : Bytes → Bytes) (objects : Assoc (Option Bytes)) (compressor : Option (Bytes × ℤ))
      (file : ℕ) (w : World T M)
      → IsCalm w.disk
      → length (w.disk.contents file) ≡ 0
      → Writable crates config compressor file encode objects
      → Distinct objects
      → length (file_bytes crc encode objects) < 2 ^ 63
      → (saved_bytes : ℤ) × (total : ℕ) × (write_objects crates config compressor file objects
            nothing_written w
          ≡ (
            ok (written_batch encode objects (length (file_bytes crc encode objects)) saved_bytes),
            with_appended w file (file_bytes crc encode objects),
          ))
        × (to_u64 (pos (length (file_bytes crc encode objects)) +ℤ saved_bytes) ≡ ok total)
  write_new_file encode objects compressor file w calm empty fit distinct size =
      let bytes = file_bytes crc encode objects in
      let (saved_bytes, e, cover) =
        write_objects-Ends crates config compressor file encode objects nothing_written w calm empty
          fit distinct (Disjoint-nil RelativeDiskLocation objects) (omega arith) in
      let from_zero : 0 + length bytes ≡ length bytes = omega arith in
      let (total, counted) =
        total_bytes (length bytes) saved_bytes (omega (arith, cover (omega arith))) in
      (
        saved_bytes,
        total,
        e
            ∙ ap
                (λ n. (ok (written_batch encode objects n saved_bytes), with_appended w file bytes))
                from_zero,
        counted,
      )

  pub write_batch_inner-begin :
      (encode : Bytes → Bytes) (objects : Assoc (Option Bytes)) (compression : Compression)
      (w : World T M)
      → is_empty objects ≡ false
      → IsCalm w.disk
      → Disk.find_name (tmp_file_name w.tmp_counter) w.disk.names ≡ none
      → choose_compression zstd config objects ≡ ok compression
      → Writable crates config compression.compressor_and_level_opt w.disk.next_inode encode objects
      → Distinct objects
      → length (file_bytes crc encode objects) < 2 ^ 63
      → (saved_bytes : ℤ) × (total : ℕ) × (write_batch_inner crates config objects 0 [] w
          ≡ insert_and_finish objects
              (tmp_file_name w.tmp_counter)
              w.disk.next_inode
              compression
              (written_batch encode objects (length (file_bytes crc encode objects)) saved_bytes)
              (begun w (file_bytes crc encode objects) total))
  unfolding write_batch_inner
  write_batch_inner-begin encode objects compression w some_objects calm new_name chosen fit
        distinct size =
      let bytes = file_bytes crc encode objects in
      let w1 = record w {
        tmp_counter = add64 w.tmp_counter 1;
        disk = opened w.disk (tmp_file_name w.tmp_counter);
      } in
      let (saved_bytes, total, e, counted) =
        write_new_file encode objects compression.compressor_and_level_opt w.disk.next_inode w1 calm
          (rw (==_refl w.disk.next_inode) refl) fit distinct size in
      let w2 = with_appended w1 w.disk.next_inode bytes in
      let calm2 = appended-IsCalm w1.disk w.disk.next_inode bytes calm in
      (
        saved_bytes,
        total,
        rw
            (
              some_objects,
              open_file_new (tmp_file_name w.tmp_counter) w.disk calm new_name,
              chosen,
              e,
              length-relative_locations encode 0 objects,
              ==_refl (length objects),
              sync_calm w2.disk calm2,
              sync_calm w2.disk calm2,
              maybe_sync w2 calm2,
              counted,
            )
            refl,
      )
