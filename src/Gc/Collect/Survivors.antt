-- ===== src/Gc/Collect/Survivors.antt =====
-- Which objects of a file the loop of `maintenance` keeps: those at which the location table points.
use marble.Prelude.{
  ℕ, ◌+◌, ◌^◌, ◌<◌, ◌≡◌, refl, ap, ◌∙◌, arith, Option, none, some, [], ◌∷◌, ◌++◌, length, ok,
  Bool-cases, inl, inr, ◌==◌, ==_iff, ==_refl, subst, if◌then◌else◌,
}
use marble.Prelude.Assoc.{Assoc, lookup, lookup-insert, Distinct, Fresh}
use marble.Prelude.Bytes.{Bytes}
use marble.Config.{Config}
use marble.DiskLocation
use marble.DiskLocation.{DiskLocation}
use marble.FileMap.{same_location}
use marble.Gc.Collect.{Collected, nothing_collected, collect, collect_objects}
use marble.Gc.Collect.Objects.{location_at, Collectable, collected_from, collect_objects_lem}
use marble.Trailer.{ZstdDict}
use marble.World.{FileAndMetadata, Crates}
use marble.WritePath.Layout.{file_bytes}

-- What an object that is kept leaves in the batch and in the map of old locations.
abbrev pub kept_object :
    Option (Bytes × DiskLocation) → Option (Option Bytes) → Option (Option Bytes)
kept_object none before = before
kept_object (some (raw, l)) before = some (some raw)

abbrev pub kept_location : Option (Bytes × DiskLocation) → Option DiskLocation → Option DiskLocation
kept_location none before = before
kept_location (some (raw, l)) before = some l

abbrev or_else {ℓ} : {A : Type ℓ} → Option A → Option A → Option A
or_else none m = m
or_else (some a) m = some a

or_else-none {ℓ} : {A : Type ℓ} (s : Option A) → or_else s none ≡ s
or_else-none none = refl
or_else-none (some a) = refl

kept_object-or_else :
    (s m : Option (Bytes × DiskLocation)) (x : Option (Option Bytes))
    → kept_object s (kept_object m x) ≡ kept_object (or_else s m) x
kept_object-or_else none m x = refl
kept_object-or_else (some p) m x = refl

kept_location-or_else :
    (s m : Option (Bytes × DiskLocation)) (x : Option DiskLocation)
    → kept_location s (kept_location m x) ≡ kept_location (or_else s m) x
kept_location-or_else none m x = refl
kept_location-or_else (some p) m x = refl

lookup-collect :
    (k id : ℕ) (raw : Bytes) (l current : DiskLocation) (c : Collected)
    → (lookup k (collect id (some raw) l current c).batch
        ≡ kept_object
            (if same_location l current then (if id == k then some (raw, l) else none) else none)
            (lookup k c.batch))
      × (lookup k (collect id (some raw) l current c).old_locations
          ≡ kept_location
              (if same_location l current then (if id == k then some (raw, l) else none) else none)
              (lookup k c.old_locations))
unfolding collect
lookup-collect k id raw l current c = elim (Bool-cases (same_location l current)) [
  | inl e ↦ elim (Bool-cases (id == k)) [
    | inl s ↦
        rw (e, s)
          (
            lookup-insert id k (some raw) c.batch ∙ rw s refl,
            lookup-insert id k l c.old_locations ∙ rw s refl,
          )
    | inr s ↦
        rw (e, s)
          (
            lookup-insert id k (some raw) c.batch ∙ rw s refl,
            lookup-insert id k l c.old_locations ∙ rw s refl,
          )
  ]
  | inr e ↦ rw e (refl, refl)
]

module _ {T M : Type 0} (crates : Crates T M) (config : Config) (table : T) (fam : FileAndMetadata)
    (zstd_dict : ZstdDict) (encode : Bytes → Bytes) where
  open crates use {pages, crc}

  abbrev pub location : ℕ → DiskLocation
  location = location_at crates config table fam zstd_dict

  abbrev pub at_table : ℕ → DiskLocation
  at_table k = record { word = pages.get table k }

  -- The object of an id and its location, if the table points there. The objects lie one behind the
  -- other from `offset` on, and deletes take no place.
  abbrev pub survivor : ℕ → ℕ → Assoc (Option Bytes) → Option (Bytes × DiskLocation)
  survivor k offset [] = none
  survivor k offset ((id, none) ∷ rest) = survivor k offset rest
  survivor k offset ((id, some raw) ∷ rest) =
      if id == k
      then (if same_location (location offset) (at_table k)
          then some (raw, location offset)
          else none)
      else survivor k (offset + (20 + length (encode raw))) rest

  survivor-Fresh :
      (k offset : ℕ) (objects : Assoc (Option Bytes))
      → Fresh k objects
      → survivor k offset objects ≡ none
  survivor-Fresh k offset [] f = refl
  survivor-Fresh k offset ((id, none) ∷ rest) f = survivor-Fresh k offset rest f.1
  survivor-Fresh k offset ((id, some raw) ∷ rest) f = elim (Bool-cases (id == k)) [
    | inl e ↦ absurd (f.0 ((==_iff id k).0 e))
    | inr e ↦ rw e (survivor-Fresh k (offset + (20 + length (encode raw))) rest f.1)
  ]

  -- What one object leaves, and what those behind it leave.
  survivor-some :
      (k offset id : ℕ) (raw : Bytes) (rest : Assoc (Option Bytes))
      → Fresh id rest
      → or_else (survivor k (offset + (20 + length (encode raw))) rest) (
          if same_location (location offset) (at_table id)
          then (if id == k then some (raw, location offset) else none)
          else none)
        ≡ survivor k offset ((id, some raw) ∷ rest)
  survivor-some k offset id raw rest f = elim (Bool-cases (id == k)) [
    | inl e ↦
        let same = (==_iff id k).0 e in
        let gone =
          survivor-Fresh k (offset + (20 + length (encode raw))) rest
            (subst (λ j. Fresh j rest) same f) in
        rw (gone, same, ==_refl k) refl
    | inr e ↦ rw e (elim (Bool-cases (same_location (location offset) (at_table id))) [
      | inl t ↦ rw t (or_else-none (survivor k (offset + (20 + length (encode raw))) rest))
      | inr t ↦ rw t (or_else-none (survivor k (offset + (20 + length (encode raw))) rest))
    ])
  ]

  collected_from-survivor :
      (k offset : ℕ) (objects : Assoc (Option Bytes)) (c : Collected)
      → Distinct objects
      → (lookup k (collected_from crates config table fam zstd_dict encode offset objects c).batch
          ≡ kept_object (survivor k offset objects) (lookup k c.batch))
        × (lookup k
              (collected_from crates config table fam zstd_dict encode offset objects
                c).old_locations
            ≡ kept_location (survivor k offset objects) (lookup k c.old_locations))
  unfolding collected_from
  collected_from-survivor k offset [] c d = (refl, refl)
  collected_from-survivor k offset ((id, none) ∷ rest) c d =
      collected_from-survivor k offset rest c d.1
  collected_from-survivor k offset ((id, some raw) ∷ rest) c d =
      let c' = collect id (some raw) (location offset) (at_table id) c in
      let (b, o) = collected_from-survivor k (offset + (20 + length (encode raw))) rest c' d.1 in
      let (lb, lo) = lookup-collect k id raw (location offset) (at_table id) c in
      let s = survivor k (offset + (20 + length (encode raw))) rest in
      let whole = survivor-some k offset id raw rest d.0 in
      (
        b
            ∙ ap (kept_object s) lb
            ∙ kept_object-or_else s _ (lookup k c.batch)
            ∙ ap (λ m. kept_object m (lookup k c.batch)) whole,
        o
            ∙ ap (kept_location s) lo
            ∙ kept_location-or_else s _ (lookup k c.old_locations)
            ∙ ap (λ m. kept_location m (lookup k c.old_locations)) whole,
      )

  -- On a file that holds the records of distinct objects in front of its trailer, the loop of a
  -- maintenance run ends without an error within the rounds that it has. It collects each object at
  -- which the location table points, with its location, and nothing else. This takes objects that the
  -- table has, smaller than `max_object_size`, and that decompress, and locations below 2 ^ 63.
  pub collect_objects-survivors :
      (objects : Assoc (Option Bytes)) (trailer : Bytes)
      → Distinct objects
      → Collectable crates config table fam zstd_dict encode objects
      → 0 < DiskLocation.lsn fam.location
      → length (file_bytes crc encode objects) + DiskLocation.lsn fam.location < 2 ^ 63
      → (c : Collected) × (collect_objects crates config table fam zstd_dict
            (file_bytes crc encode objects ++ trailer)
            (length (file_bytes crc encode objects))
            (length (file_bytes crc encode objects))
            0
            nothing_collected
          ≡ ok c)
        × ((k : ℕ)
            → (lookup k c.batch ≡ kept_object (survivor k 0 objects) none)
              × (lookup k c.old_locations ≡ kept_location (survivor k 0 objects) none))
  unfolding lookup
  collect_objects-survivors objects trailer distinct fine p h = (
    collected_from crates config table fam zstd_dict encode 0 objects nothing_collected,
    collect_objects_lem crates config table fam zstd_dict encode objects
        (file_bytes crc encode objects ++ trailer) [] trailer
        (length (file_bytes crc encode objects)) (length (file_bytes crc encode objects))
        nothing_collected refl (omega arith) (omega arith) p h fine,
    λ k. collected_from-survivor k 0 objects nothing_collected distinct,
  )
