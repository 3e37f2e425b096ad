-- ===== src/Recovery/Durable.antt =====
-- A batch from the write path (src/writepath.rs) through its trailer (src/trailer.rs) to the page table
-- of a restart (src/recovery.rs).
use marble.Prelude.{
  ℕ, ◌+◌, ◌*◌, ◌^◌, ◌<◌, ◌≡◌, refl, ap, arith, Option, none, some, [], ◌∷◌, All, length, ok, ◌>>=◌,
  ◌∙◌, Bool-cases, inl, inr, ◌==◌, ==_iff,
}
use marble.Prelude.Assoc.{Assoc, lookup, Distinct, Disjoint-nil}
use marble.Prelude.Bytes.{Bytes, u64_mod}
use marble.Prelude.Int.{ℤ}
use marble.Config.{Config}
use marble.Crc32.{Crc32}
use marble.Disk.Calm.{IsCalm}
use marble.DiskLocation.{DiskLocation}
use marble.Recovery.Locations.{recover_locations}
use marble.DiskLocation.Laws.{absolute}
use marble.Recovery.Order.{Follow, IsLater-none, newest, recover_locations-newest}
use marble.RelativeDiskLocation.{RelativeDiskLocation}
use marble.Trailer.{dict_bytes, trailer_bytes, read_trailer_from_buf}
use marble.Trailer.RoundTrip.{AreWide, read_trailer-trailer_bytes}
use marble.ReadPath.{read_object}
use marble.World.{FileAndMetadata, Crates, World}
use marble.WritePath.Readable.{read_written}
use marble.Zstd
use marble.WritePath.Layout.{
  length-record_and_rest, file_bytes, relative_locations, with_appended, Writable,
  write_objects-Ends,
}
use marble.WritePath.Offsets.{relative_locations-Distinct, length-relative_locations}
use marble.WritePath.Objects.{Written, nothing_written, write_objects}

abbrev pub AreIds : Assoc (Option Bytes) → Type 0
AreIds = All λ (p : ℕ × Option Bytes). p.0 < 2 ^ 64

abbrev at_word : ℕ → Option DiskLocation
at_word n = some (record { word = n })

lookup-nil : (k : ℕ) → ◌≡◌ {A = Option DiskLocation} (lookup k []) none
unfolding lookup
lookup-nil k = refl

module _ (crc : Crc32) (encode : Bytes → Bytes) where
  -- What a bound on the file says of its locations.
  relative_locations-fit :
      (lsn offset : ℕ) (objects : Assoc (Option Bytes))
      → AreIds objects
      → 0 < lsn
      → offset + length (file_bytes crc encode objects) + lsn < 2 ^ 63
      → AreWide (relative_locations encode offset objects)
        × Follow lsn [] (relative_locations encode offset objects)
  unfolding relative_locations file_bytes lookup
  relative_locations-fit lsn offset [] ids p h = (tt, tt)
  relative_locations-fit lsn offset ((id, none) ∷ rest) ids p h =
      let (wide, follow) = relative_locations-fit lsn offset rest ids.1 p h in
      (
        ((ids.0, omega arith), wide),
        (
          (omega arith, omega arith, IsLater-none id (absolute lsn (record { word = 1 })) [] refl),
          follow,
        ),
      )
  relative_locations-fit lsn offset ((id, some raw) ∷ rest) ids p h =
      let size = length-record_and_rest crc encode id raw rest in
      let (wide, follow) =
        relative_locations-fit lsn (offset + (20 + length (encode raw))) rest ids.1 p
          (omega (arith, size, h)) in
      (
        ((ids.0, omega (arith, h)), wide),
        (
          (
            omega arith,
            omega (arith, h),
            IsLater-none id (absolute lsn (record { word = offset * 2 })) [] refl,
          ),
          follow,
        ),
      )

AreIds-lookup :
    (k : ℕ) (object : Option Bytes) (objects : Assoc (Option Bytes))
    → AreIds objects
    → lookup k objects ≡ some object
    → k < 2 ^ 64
unfolding lookup
AreIds-lookup k object [] ids e = absurd (cc)
AreIds-lookup k object ((j, other) ∷ rest) ids e = elim (Bool-cases (j == k)) [
  | inl same ↦ omega (arith, (==_iff j k).0 same, ids.0)
  | inr ne ↦ AreIds-lookup k object rest ids.1 (rw ne at e)
]

-- An id that is not in the batch has no relative location, and a deleted one has that of a delete.
lookup-relative_locations :
    (encode : Bytes → Bytes) (k offset : ℕ) (objects : Assoc (Option Bytes))
    → (lookup k objects ≡ none → lookup k (relative_locations encode offset objects) ≡ none)
      × (lookup k objects ≡ some none
          → lookup k (relative_locations encode offset objects) ≡ some (record { word = 1 }))
unfolding lookup relative_locations
lookup-relative_locations encode k offset [] = (λ e. refl, λ e. absurd (cc))
lookup-relative_locations encode k offset ((j, none) ∷ rest) = elim (Bool-cases (j == k)) [
  | inl same ↦ rw same (λ e. absurd (cc), λ e. refl)
  | inr ne ↦ rw ne (lookup-relative_locations encode k offset rest)
]
lookup-relative_locations encode k offset ((j, some raw) ∷ rest) = elim (Bool-cases (j == k)) [
  | inl same ↦ rw same (λ e. absurd (cc), λ e. absurd (cc))
  | inr ne ↦ rw ne (lookup-relative_locations encode k (offset + (20 + length (encode raw))) rest)
]

module _ {T M : Type 0} (crates : Crates T M) (config : Config) (compressor : Option (Bytes × ℤ))
    (encode : Bytes → Bytes) (fam : FileAndMetadata) (w : World T M) where
  open crates use {crc, zstd}

  -- What a recovered page table has for an id of which the batch has that object: none without one; for
  -- a delete the start of the file, with the mark of deletes; and for an object the place in the file
  -- where a read finds it.
  abbrev pub IsRecovered : ℕ → World T M → Assoc DiskLocation → ℕ → Option (Option Bytes) → Type 0
  IsRecovered lsn w' table k none = lookup k table ≡ none
  IsRecovered lsn w' table k (some none) = lookup k table ≡ some (record { word = lsn * 2 + 1 })
  IsRecovered lsn w' table k (some (some raw)) =
      (offset : ℕ) × (lookup k table ≡ some (record { word = (lsn + offset) * 2 }))
      × ((read_object crates k fam offset w').0 ≡ ok raw)

  -- Where no call of the system fails, a batch of distinct, small enough objects is written to an empty
  -- file, and the trailer made of its relative locations is read back by a restart. The page table then has
  -- no location for an id that is not in the batch, the file's number with the mark of deletes for a
  -- deleted id, and for every other id of the batch a location in the file at which the object is
  -- read back, if the file's dictionary undoes the batch's compression. The file's end is below 2 ^ 63
  -- in the log, and the trailer below 2 ^ 64 bytes.
  pub write_objects-recover_locations :
      (objects : Assoc (Option Bytes)) (dict_bytes_opt : Option Bytes) (lsn : ℕ)
      → IsCalm w.disk
      → w.disk.contents fam.file ≡ []
      → Writable crates config compressor fam.file encode objects
      → Distinct objects
      → AreIds objects
      → 0 < lsn
      → length (file_bytes crc encode objects) + lsn < 2 ^ 63
      → 20 + length objects * 16 + length (dict_bytes dict_bytes_opt) < u64_mod
      → ((id : ℕ) (raw : Bytes)
          → lookup id objects ≡ some (some raw)
          → Zstd.decompress zstd fam.zstd_dict (encode raw) ≡ ok raw)
      → (written : Written) × (w' : World T M) × (table : Assoc DiskLocation) × (write_objects
            crates config compressor fam.file objects nothing_written w
          ≡ (ok written, w'))
        × ((read_trailer_from_buf crc
                (trailer_bytes crc written.new_relative_locations dict_bytes_opt)
              >>= λ trailer. recover_locations lsn trailer.0 [])
            ≡ ok table)
        × ((k : ℕ) → IsRecovered lsn w' table k (lookup k objects))
  write_objects-recover_locations objects dict_bytes_opt lsn calm new fit distinct ids p h
        trailer_fits dec =
      let locations = relative_locations encode 0 objects in
      let (saved_bytes, e, cover) =
        write_objects-Ends crates config compressor fam.file encode objects nothing_written w calm
          (ap length new) fit distinct (Disjoint-nil RelativeDiskLocation objects) (omega arith) in
      let (wide, follow) = relative_locations-fit crc encode lsn 0 objects ids p (omega arith) in
      let (table, r, at) =
        recover_locations-newest lsn locations []
          (relative_locations-Distinct encode 0 objects distinct) follow in
      let back =
        read_trailer-trailer_bytes crc locations dict_bytes_opt wide
          (omega (arith, length-relative_locations encode 0 objects)) in
      let w' = with_appended w fam.file (file_bytes crc encode objects) in
      (_, w', table, e, rw back r, λ k. recovered table k at (lookup k objects) refl)
    where
      recovered :
          (table : Assoc DiskLocation) (k : ℕ)
          → ((j : ℕ)
              → lookup j table
                ≡ newest lsn (lookup j (relative_locations encode 0 objects)) (lookup j []))
          → (object : Option (Option Bytes)) → lookup k objects ≡ object
          → IsRecovered lsn
              (with_appended w fam.file (file_bytes crc encode objects))
              table
              k
              object
      recovered table k at none found =
          at k
          ∙ ap (λ o. newest lsn o (lookup k []))
              ((lookup-relative_locations encode k 0 objects).0 found)
          ∙ lookup-nil k
      recovered table k at (some none) found =
          at k
          ∙ ap (λ o. newest lsn o (lookup k []))
              ((lookup-relative_locations encode k 0 objects).1 found)
      recovered table k at (some (some raw)) found =
          let (offset, there, r) =
            read_written crates encode fam w objects k raw calm new (omega (arith, h)) found
              (AreIds-lookup k (some raw) objects ids found) (dec k raw found) in
          (offset, at k ∙ ap (λ o. newest lsn o (lookup k [])) there ∙ ap at_word (omega arith), r)
