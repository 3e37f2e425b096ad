-- ===== src/WritePath/Readable.antt =====
-- Objects that step 1 of `write_batch_inner` wrote are read back.
use marble.Prelude.{
  ℕ, ◌*◌, ◌^◌, ◌<◌, ◌≡◌, ap, ◌∙◌, arith, Option, some, [], ◌++◌, length, length-append, ok,
}
use marble.Prelude.Assoc.{Assoc, lookup, Distinct, Disjoint-nil}
use marble.Prelude.Bytes.{Bytes}
use marble.Prelude.Int.{ℤ}
use marble.Config.{Config}
use marble.Disk.Calm.{IsCalm, contents-appended, appended-IsCalm}
use marble.ObjectRecord.{record_bytes}
use marble.ObjectRecord.Layout.{length-record_bytes}
use marble.ReadPath.{read_object}
use marble.ReadPath.Stored.{read_object-record_bytes}
use marble.RelativeDiskLocation.{RelativeDiskLocation}
use marble.World.{FileAndMetadata, Crates, World}
use marble.WritePath.Layout.{
  file_bytes, relative_locations, with_appended, Writable, write_objects-Ends,
}
use marble.WritePath.Offsets.{file_bytes-lookup}
use marble.WritePath.Objects.{Written, nothing_written, write_objects}
use marble.Zstd

abbrev at_word : ℕ → Option RelativeDiskLocation
at_word n = some (record { word = n })

module _ {T M : Type 0} (crates : Crates T M) (encode : Bytes → Bytes) (fam : FileAndMetadata)
    (w : World T M) where
  open crates use {crc, zstd}

  -- In the bytes of a batch, behind nothing else, the relative location of an object leads to it.
  pub read_written :
      (objects : Assoc (Option Bytes)) (id : ℕ) (raw : Bytes)
      → IsCalm w.disk
      → w.disk.contents fam.file ≡ []
      → length (file_bytes crc encode objects) < 2 ^ 63
      → lookup id objects ≡ some (some raw)
      → id < 2 ^ 64
      → Zstd.decompress zstd fam.zstd_dict (encode raw) ≡ ok raw
      → (offset : ℕ) × (lookup id (relative_locations encode 0 objects)
          ≡ some (record { word = offset * 2 }))
        × ((read_object crates id fam offset
              (with_appended w fam.file (file_bytes crc encode objects))).0
            ≡ ok raw)
  read_written objects id raw calm new size found id_fits dec =
      let (front, back, f, l) = file_bytes-lookup crc encode objects id 0 raw found in
      let w' = with_appended w fam.file (file_bytes crc encode objects) in
      let holds : w'.disk.contents fam.file ≡ front ++ (record_bytes crc id (encode raw) ++ back) =
        contents-appended w.disk fam.file (file_bytes crc encode objects)
        ∙ ap (λ b. b ++ file_bytes crc encode objects) new
        ∙ f in
      let total = ap length f in
      let split = length-append {0} front (record_bytes crc id (encode raw) ++ back) in
      let split' = length-append {0} (record_bytes crc id (encode raw)) back in
      let r =
        read_object-record_bytes crates id fam w' front (encode raw) raw back
          (appended-IsCalm w.disk fam.file (file_bytes crc encode objects) calm) holds dec id_fits
          (omega (arith, total, split, split', length-record_bytes crc id (encode raw)))
          (omega (arith, total, split, split', length-record_bytes crc id (encode raw))) in
      (length front, l ∙ ap at_word (omega arith), ap (λ p. p.0) r)

module _ {T M : Type 0} (crates : Crates T M) (config : Config) (compressor : Option (Bytes × ℤ))
    (encode : Bytes → Bytes) (fam : FileAndMetadata) (w : World T M) where
  open crates use {crc, zstd}

  -- A batch of distinct, small enough objects is written to an empty file without an error, if no call
  -- of the system fails and the file stays below 2 ^ 63 bytes. Then the relative location of each
  -- object that is not a delete leads `read` to the object, if the file's dictionary undoes the
  -- batch's compression.
  pub write_objects-read_object :
      (objects : Assoc (Option Bytes)) (id : ℕ) (raw : Bytes)
      → IsCalm w.disk
      → w.disk.contents fam.file ≡ []
      → Writable crates config compressor fam.file encode objects
      → Distinct objects
      → length (file_bytes crc encode objects) < 2 ^ 63
      → lookup id objects ≡ some (some raw)
      → id < 2 ^ 64
      → Zstd.decompress zstd fam.zstd_dict (encode raw) ≡ ok raw
      → (written : Written) × (w' : World T M) × (offset : ℕ) × (write_objects crates config
            compressor fam.file objects nothing_written w
          ≡ (ok written, w'))
        × (lookup id written.new_relative_locations ≡ some (record { word = offset * 2 }))
        × ((read_object crates id fam offset w').0 ≡ ok raw)
  write_objects-read_object objects id raw calm new fit distinct size found id_fits dec =
      let (saved_bytes, e, cover) =
        write_objects-Ends crates config compressor fam.file encode objects nothing_written w calm
          (ap length new) fit distinct (Disjoint-nil RelativeDiskLocation objects) (omega arith) in
      let (offset, at, r) =
        read_written crates encode fam w objects id raw calm new size found id_fits dec in
      (_, with_appended w fam.file (file_bytes crc encode objects), offset, e, at, r)
