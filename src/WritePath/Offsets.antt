-- ===== src/WritePath/Offsets.antt =====
-- The relative locations of a batch (src/writepath.rs): one for each object, and where the record of
-- each object stands.
use marble.Prelude.{
  ℕ, ◌+◌, ◌*◌, ◌≡◌, refl, sym, ap, ◌∙◌, arith, Option, none, some, [], ◌∷◌, ◌++◌, append_assoc,
  length, length-append, Bool-cases, inl, inr, ◌==◌, ==_iff,
}
use marble.Prelude.Assoc.{Assoc, lookup, Distinct, Fresh}
use marble.Prelude.Bytes.{Bytes}
use marble.Crc32.{Crc32}
use marble.ObjectRecord.{record_bytes}
use marble.ObjectRecord.Layout.{length-record_bytes}
use marble.RelativeDiskLocation.{RelativeDiskLocation}
use marble.WritePath.Layout.{file_bytes, relative_locations}

module _ (encode : Bytes → Bytes) where
  relative_locations-Fresh :
      (k offset : ℕ) (objects : Assoc (Option Bytes))
      → Fresh k objects
      → Fresh k (relative_locations encode offset objects)
  unfolding relative_locations
  relative_locations-Fresh k offset [] f = tt
  relative_locations-Fresh k offset ((id, none) ∷ rest) f =
      (f.0, relative_locations-Fresh k offset rest f.1)
  relative_locations-Fresh k offset ((id, some raw) ∷ rest) f =
      (f.0, relative_locations-Fresh k (offset + (20 + length (encode raw))) rest f.1)

  pub relative_locations-Distinct :
      (offset : ℕ) (objects : Assoc (Option Bytes))
      → Distinct objects
      → Distinct (relative_locations encode offset objects)
  unfolding relative_locations
  relative_locations-Distinct offset [] d = tt
  relative_locations-Distinct offset ((id, none) ∷ rest) d =
      (relative_locations-Fresh id offset rest d.0, relative_locations-Distinct offset rest d.1)
  relative_locations-Distinct offset ((id, some raw) ∷ rest) d = (
    relative_locations-Fresh id (offset + (20 + length (encode raw))) rest d.0,
    relative_locations-Distinct (offset + (20 + length (encode raw))) rest d.1,
  )

  pub length-relative_locations :
      (offset : ℕ) (objects : Assoc (Option Bytes))
      → length (relative_locations encode offset objects) ≡ length objects
  unfolding relative_locations
  length-relative_locations offset [] = refl
  length-relative_locations offset ((id, none) ∷ rest) =
      omega (arith, length-relative_locations offset rest)
  length-relative_locations offset ((id, some raw) ∷ rest) =
      omega (arith, length-relative_locations (offset + (20 + length (encode raw))) rest)

abbrev at_word : ℕ → Option RelativeDiskLocation
at_word n = some (record { word = n })

module _ (crc : Crc32) (encode : Bytes → Bytes) where
  -- An object's record stands at the offset that its relative location has.
  pub file_bytes-lookup :
      (objects : Assoc (Option Bytes)) (id offset : ℕ) (raw : Bytes)
      → lookup id objects ≡ some (some raw)
      → (front back : Bytes) × (file_bytes crc encode objects
          ≡ front ++ (record_bytes crc id (encode raw) ++ back))
        × (lookup id (relative_locations encode offset objects)
            ≡ some (record { word = (offset + length front) * 2 }))
  unfolding lookup file_bytes relative_locations
  file_bytes-lookup [] id offset raw e = cc
  file_bytes-lookup ((j, none) ∷ rest) id offset raw e = elim (Bool-cases (j == id)) [
    | inl same ↦ cc (rw same at e)
    | inr other ↦
        let (front, back, f, l) = file_bytes-lookup rest id offset raw (rw other at e) in
        (front, back, f, rw other l)
  ]
  file_bytes-lookup ((j, some here) ∷ rest) id offset raw e = elim (Bool-cases (j == id)) [
    | inl same ↦ (
      [],
      file_bytes crc encode rest,
      cc ((==_iff j id).0 same, rw same at e),
      rw same (ap at_word (omega arith)),
    )
    | inr other ↦
        let step = offset + (20 + length (encode here)) in
        let (front, back, f, l) = file_bytes-lookup rest id step raw (rw other at e) in
        (
          record_bytes crc j (encode here) ++ front,
          back,
          ap (λ r. record_bytes crc j (encode here) ++ r) f
              ∙ sym (append_assoc (record_bytes crc j (encode here)) front _),
          rw other (
              l
              ∙ ap at_word (
                  omega (
                    arith,
                    length-append {0} (record_bytes crc j (encode here)) front,
                    length-record_bytes crc j (encode here),
                  ))),
        )
  ]

module _ (encode : Bytes → Bytes) where
  -- An id that is not in the batch has no relative location.
  pub relative_locations-absent :
      (objects : Assoc (Option Bytes)) (id offset : ℕ)
      → lookup id objects ≡ none
      → lookup id (relative_locations encode offset objects) ≡ none
  unfolding lookup relative_locations
  relative_locations-absent [] id offset e = refl
  relative_locations-absent ((j, none) ∷ rest) id offset e = elim (Bool-cases (j == id)) [
    | inl same ↦ cc (rw same at e)
    | inr other ↦ rw other (relative_locations-absent rest id offset (rw other at e))
  ]
  relative_locations-absent ((j, some raw) ∷ rest) id offset e = elim (Bool-cases (j == id)) [
    | inl same ↦ cc (rw same at e)
    | inr other ↦
        rw other
          (relative_locations-absent rest id (offset + (20 + length (encode raw))) (rw other at e))
  ]

  -- A deleted id has the delete bit alone.
  pub relative_locations-deleted :
      (objects : Assoc (Option Bytes)) (id offset : ℕ)
      → lookup id objects ≡ some none
      → lookup id (relative_locations encode offset objects) ≡ at_word 1
  unfolding lookup relative_locations
  relative_locations-deleted [] id offset e = cc
  relative_locations-deleted ((j, none) ∷ rest) id offset e = elim (Bool-cases (j == id)) [
    | inl same ↦ rw same refl
    | inr other ↦ rw other (relative_locations-deleted rest id offset (rw other at e))
  ]
  relative_locations-deleted ((j, some raw) ∷ rest) id offset e = elim (Bool-cases (j == id)) [
    | inl same ↦ absurd (cc (rw same at e))
    | inr other ↦
        rw other
          (relative_locations-deleted rest id (offset + (20 + length (encode raw))) (rw other at e))
  ]
