-- ===== src/ReadPath/Stored.antt =====
-- `read` of an object that lies in a file as the write path puts it there.
use marble.Prelude.{
  ℕ, ◌+◌, ◌^◌, ◌<◌, ◌≡◌, refl, sym, ap, ◌∙◌, arith, true, [], ◌∷◌, ◌++◌, append_assoc, length,
  length-append, ok, ==_refl, lt→ltb,
}
use marble.Prelude.Bytes.{Bytes, from_le_bytes-to_le_bytes}
use marble.Disk
use marble.Disk.Calm.{IsCalm, read_exact_at_part}
use marble.ObjectRecord.{record_bytes}
use marble.ObjectRecord.Layout.{
  crc_buf, header, length-header, record_bytes-header, header-crc, header-pid, header-len,
}
use marble.ReadPath.{uninit_boxed_slice, same_bytes, read_object}
use marble.World.{FileAndMetadata, Crates, World, add64}
use marble.Zstd

same_name_refl : (name : Bytes) → Disk.same_name name name ≡ true
unfolding Disk.same_name
same_name_refl [] = refl
same_name_refl (x ∷ xs) = rw (==_refl x, same_name_refl xs)

pub same_bytes_refl : (bytes : Bytes) → same_bytes bytes bytes ≡ true
unfolding same_bytes
same_bytes_refl bytes = same_name_refl bytes

module _ {T M : Type 0} (crates : Crates T M) (object_id : ℕ) (fam : FileAndMetadata)
    (w : World T M) (front output raw back : Bytes) where
  open crates use {crc, zstd}

  -- The state after a read: nothing but the two counters has changed.
  abbrev pub after_read : World T M
  after_read = record w {
    compressed_bytes_read = add64 w.compressed_bytes_read (length output);
    decompressed_bytes_read = add64 w.decompressed_bytes_read (length raw);
  }

  read_header :
      IsCalm w.disk
      → w.disk.contents fam.file ≡ front ++ (record_bytes crc object_id output ++ back)
      → Disk.read_exact_at fam.file (length front) 20 w.disk
        ≡ (ok (header crc object_id output), w.disk)
  read_header calm holds =
      read_exact_at_part fam.file (length front) 20 w.disk front (header crc object_id output)
        (output ++ back) calm
        (holds
          ∙ ap (λ r. front ++ (r ++ back)) (record_bytes-header crc object_id output)
          ∙ ap (λ r. front ++ r) (append_assoc (header crc object_id output) output back))
        refl (length-header crc object_id output)

  read_body :
      IsCalm w.disk
      → w.disk.contents fam.file ≡ front ++ (record_bytes crc object_id output ++ back)
      → length front + 20 < 2 ^ 64
      → Disk.read_exact_at fam.file (add64 (length front) 20) (length output) w.disk
        ≡ (ok output, w.disk)
  read_body calm holds fits =
      read_exact_at_part fam.file _ (length output) w.disk (front ++ header crc object_id output)
        output back calm
        (holds
          ∙ ap (λ r. front ++ (r ++ back)) (record_bytes-header crc object_id output)
          ∙ ap (λ r. front ++ r) (append_assoc (header crc object_id output) output back)
          ∙ sym (append_assoc front (header crc object_id output) (output ++ back)))
        (omega (
          arith,
          length-append {0} front (header crc object_id output),
          length-header crc object_id output,
        ))
        refl

  -- Where a file holds the record of an object, a read of the object's id at the record's offset passes
  -- every check and returns what the record's bytes decompress to. It changes nothing but the counters.
  pub read_object-record_bytes :
      IsCalm w.disk
      → w.disk.contents fam.file ≡ front ++ (record_bytes crc object_id output ++ back)
      → Zstd.decompress zstd fam.zstd_dict output ≡ ok raw
      → object_id < 2 ^ 64
      → length output < 2 ^ 63
      → length front + 20 < 2 ^ 64
      → read_object crates object_id fam (length front) w ≡ (ok raw, after_read)
  unfolding read_object uninit_boxed_slice
  read_object-record_bytes calm holds dec id_fits len_fits fits = rw (
    read_header calm holds,
    header-crc crc object_id output,
    header-pid crc object_id output,
    header-len crc object_id output,
    from_le_bytes-to_le_bytes 8 (length output) (omega arith),
    from_le_bytes-to_le_bytes 8 object_id (omega arith),
    lt→ltb (length output) (2 ^ 63) len_fits,
    read_body calm holds fits,
    same_bytes_refl (crc_buf crc object_id output),
    ==_refl object_id,
    dec,
  )
