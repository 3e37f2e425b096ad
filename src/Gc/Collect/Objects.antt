-- ===== src/Gc/Collect/Objects.antt =====
-- The loop of `maintenance` over the objects of a file that the write path wrote: what it collects.
use marble.Prelude.{
  ℕ, zero, suc, ◌+◌, ◌*◌, ◌^◌, ◌≤◌, ◌<◌, ◌≡◌, refl, sym, subst, ap, ◌∙◌, arith, Option, none, some,
  [], ◌∷◌, ◌++◌, append_assoc, length, length-append, ok, lt→ltb, le→not_ltb, Bool-cases, inl, inr,
  false,
}
use marble.Prelude.Assoc.{Assoc}
use marble.Prelude.Bytes.{Bytes, from_le_bytes-to_le_bytes}
use marble.Config.{Config}
use marble.DiskLocation
use marble.DiskLocation.{DiskLocation}
use marble.DiskLocation.Laws.{Relative-new_lem}
use marble.FileMap.{same_location}
use marble.Gc.Collect.{Collected, collect, collect_object, collect_objects}
use marble.Gc.Collect.Live.{Holds, read_header, read_body}
use marble.LocationTable
use marble.LocationTable.Races.{load_word}
use marble.ObjectRecord.{record_bytes}
use marble.ObjectRecord.Layout.{header-len, header-pid, header-crc, crc_buf, length-record_bytes}
use marble.ReadPath.Stored.{same_bytes_refl}
use marble.ReadPath.{uninit_boxed_slice}
use marble.RelativeDiskLocation
use marble.Trailer.{ZstdDict}
use marble.World.{FileAndMetadata, Crates}
use marble.WritePath.Layout.{length-record_and_rest, file_bytes}
use marble.Zstd

to_absolute_at :
    (o lsn : ℕ)
    → 0 < o + lsn
    → o + lsn < 2 ^ 63
    → RelativeDiskLocation.to_absolute (record { word = o * 2 }) lsn
      ≡ ok (record { word = (o + lsn) * 2 })
unfolding RelativeDiskLocation.to_absolute
to_absolute_at o lsn p h = ground arith

module _ {T M : Type 0} (crates : Crates T M) (config : Config) (table : T) (fam : FileAndMetadata)
    (zstd_dict : ZstdDict) where
  open crates use {pages, crc, zstd}

  -- The location of an offset in the file.
  abbrev pub location_at : ℕ → DiskLocation
  location_at offset = record { word = (offset + DiskLocation.lsn fam.location) * 2 }

  collect_object_lem :
      (id : ℕ) (buf front output raw back : Bytes) (c : Collected) (current : DiskLocation)
      → Holds crates config table fam zstd_dict id buf front output back c
      → length output < config.max_object_size
      → id < 2 ^ 64
      → length output < 2 ^ 63
      → LocationTable.load pages table id ≡ some current
      → 0 < length front + DiskLocation.lsn fam.location
      → length front + DiskLocation.lsn fam.location < 2 ^ 63
      → Zstd.decompress zstd zstd_dict output ≡ ok raw
      → collect_object crates config table fam zstd_dict buf (length front) c
        ≡ ok (20 + length output, collect id (some raw) (location_at (length front)) current c)
  unfolding collect_object collect uninit_boxed_slice
  collect_object_lem id buf front output raw back c current holds small wide fits at p h plain =
      rw
        (
          read_header crates config table fam zstd_dict id buf front output back c holds,
          header-len crc id output,
          header-pid crc id output,
          header-crc crc id output,
          from_le_bytes-to_le_bytes 8 (length output) (omega arith),
          from_le_bytes-to_le_bytes 8 id (omega arith),
          lt→ltb (length output) config.max_object_size small,
          at,
          Relative-new_lem (length front) false (omega arith),
          to_absolute_at (length front) (DiskLocation.lsn fam.location) p h,
          lt→ltb (length output) (2 ^ 63) fits,
          read_body crates config table fam zstd_dict id buf front output back c holds,
          same_bytes_refl (crc_buf crc id output),
        )
        (elim (Bool-cases (same_location (location_at (length front)) current)) [
          | inl e ↦ rw (e, plain) refl
          | inr e ↦ rw e refl
        ])

module _ {T M : Type 0} (crates : Crates T M) (config : Config) (table : T) (fam : FileAndMetadata)
    (zstd_dict : ZstdDict) (encode : Bytes → Bytes) where
  open crates use {pages, crc, zstd}

  -- Every object is in the location table and small enough, and its bytes in the file decompress to it.
  abbrev pub Collectable : Assoc (Option Bytes) → Type 0
  Collectable [] = Unit
  Collectable ((id, none) ∷ rest) = Collectable rest
  Collectable ((id, some raw) ∷ rest) =
      ((length (encode raw) < config.max_object_size)
        × (id < 2 ^ 64)
        × (length (encode raw) < 2 ^ 63)
        × (0 < pages.get table id)
        × (Zstd.decompress zstd zstd_dict (encode raw) ≡ ok raw))
      × Collectable rest

  -- What is collected of the objects that lie in the file from `offset` on.
  unfoldable pub collected_from : ℕ → Assoc (Option Bytes) → Collected → Collected
  collected_from offset [] c = c
  collected_from offset ((id, none) ∷ rest) c = collected_from offset rest c
  collected_from offset ((id, some raw) ∷ rest) c =
      collected_from (offset + (20 + length (encode raw))) rest (
        collect id (some raw) (location_at crates config table fam zstd_dict offset)
          (record { word = pages.get table id }) c)

  pub collect_objects_lem :
      (objects : Assoc (Option Bytes)) (buf front back : Bytes) (trailer_offset rounds : ℕ)
      (c : Collected)
      → buf ≡ front ++ (file_bytes crc encode objects ++ back)
      → trailer_offset ≡ length front + length (file_bytes crc encode objects)
      → length (file_bytes crc encode objects) ≤ rounds
      → 0 < DiskLocation.lsn fam.location
      → trailer_offset + DiskLocation.lsn fam.location < 2 ^ 63
      → Collectable objects
      → collect_objects crates config table fam zstd_dict buf trailer_offset rounds (length front) c
        ≡ ok (collected_from (length front) objects c)
  unfolding collect_objects file_bytes collected_from
  collect_objects_lem [] buf front back trailer_offset zero c holds ends enough p h ok_all = refl
  collect_objects_lem [] buf front back trailer_offset (suc rounds) c holds ends enough p h ok_all =
      rw (le→not_ltb (length front) trailer_offset (omega arith)) refl
  collect_objects_lem ((id, none) ∷ rest) buf front back trailer_offset rounds c holds ends enough p
        h ok_all =
      collect_objects_lem rest buf front back trailer_offset rounds c holds ends enough p h ok_all
  collect_objects_lem ((id, some raw) ∷ rest) buf front back trailer_offset zero c holds ends enough
        p h ok_all =
      absurd (omega (arith, length-record_and_rest crc encode id raw rest))
  collect_objects_lem ((id, some raw) ∷ rest) buf front back trailer_offset (suc rounds) c holds
        ends enough p h ok_all =
      let r = record_bytes crc id (encode raw) in
      let sizes = length-record_and_rest crc encode id raw rest in
      let current : DiskLocation = record { word = pages.get table id } in
      let c' =
        collect id (some raw) (location_at crates config table fam zstd_dict (length front)) current
          c in
      let next : length (front ++ r) ≡ length front + (20 + length (encode raw)) =
        omega (arith, length-append {0} front r, length-record_bytes crc id (encode raw)) in
      let later =
        collect_objects_lem rest buf (front ++ r) back trailer_offset rounds c'
          (holds
            ∙ ap (λ b. front ++ b) (append_assoc r (file_bytes crc encode rest) back)
            ∙ sym (append_assoc front r (file_bytes crc encode rest ++ back)))
          (omega (arith, sizes, ends, next)) (omega (arith, sizes, enough)) p h ok_all.1 in
      rw
        (
          lt→ltb (length front) trailer_offset (omega (arith, sizes, ends)),
          collect_object_lem crates config table fam zstd_dict id buf front (encode raw) raw
              (file_bytes crc encode rest ++ back) c current
              (holds ∙ ap (λ b. front ++ b) (append_assoc r (file_bytes crc encode rest) back))
              ok_all.0.0 ok_all.0.1 ok_all.0.2 (load_word pages table id current refl ok_all.0.3)
              (omega arith) (omega (arith, sizes, ends)) ok_all.0.4,
        )
        (subst
          (λ n.
            collect_objects crates config table fam zstd_dict buf trailer_offset rounds n c'
            ≡ ok (collected_from n rest c'))
          next later)
