-- ===== src/FileMap/Latest.antt =====
-- The calls of src/file_map.rs that concern the file of a new batch, which is the latest one: it goes
-- into the map, gets its name and metadata, and its claim is dropped.
use marble.Prelude.{
  ℕ, ◌%◌, ◌+◌, ◌*◌, ◌^◌, ◌<◌, ◌≡◌, refl, ap, ◌∙◌, arith, true, false, none, some, [], ◌∷◌, All, ok,
  le→leb, ◌==◌, ==_refl,
}
use marble.Prelude.Bytes.{Bytes, u64_mod}
use marble.Config.{Config}
use marble.ConcurrentMap.{place, lookup}
use marble.DiskLocation
use marble.DiskLocation.{DiskLocation}
use marble.DiskLocation.Laws.{new_lem}
use marble.FileMap.{insert, finalize_fam, drop_claims, unclaim, sub64}
use marble.FileMap.Homes.{Fams, keys, place-latest, lookup-latest}
use marble.FileMap.Lsn.{batch_lsn}
use marble.Metadata.{Metadata}
use marble.Trailer.{ZstdDict}
use marble.World.{FileAndMetadata, Crates, World}

lookup_head :
    (l : DiskLocation) (fam : FileAndMetadata) (es : Fams) → lookup l ((l, fam) ∷ es) ≡ some fam
unfolding lookup
lookup_head l fam es = rw (==_refl l.word) refl

place_head :
    (l : DiskLocation) (fam fam' : FileAndMetadata) (es : Fams)
    → place l fam' ((l, fam) ∷ es) ≡ (l, fam') ∷ es
unfolding place
place_head l fam fam' es = rw (==_refl l.word) refl

sub64_zero : (n : ℕ) → n < 2 ^ 64 → sub64 n 0 ≡ n
sub64_zero n h = omega arith

-- The record of a batch's file before it has its name.
abbrev pub new_fam : Config → DiskLocation → ℕ → ℕ → ZstdDict → FileAndMetadata
new_fam config location file capacity dict = record {
  file = file;
  location = location;
  path = none;
  metadata = none;
  live_objects = capacity;
  generation = 0;
  rewrite_claim = true;
  synced = config.fsync_each_batch;
  zstd_dict = dict;
}

-- The location of a batch's file.
abbrev pub batch_location : ℕ → DiskLocation
batch_location lsn_base = record { word = (lsn_base + 2 ^ 62) * 2 }

-- The record once it has its name and metadata.
abbrev pub named : FileAndMetadata → Metadata → Bytes → FileAndMetadata
named fam metadata path = record fam { path = some path; metadata = some metadata }

module _ {T M : Type 0} (crates : Crates T M) where
  open crates use {maps}

  get-latest :
      (l : DiskLocation) (fam : FileAndMetadata) (es : Fams) (m : M)
      → maps.entries m ≡ (l, fam) ∷ es
      → maps.get m l ≡ some fam
  get-latest l fam es m at = maps.get_lem m l ∙ ap (lookup l) at ∙ lookup_head l fam es

  entries-set_latest :
      (l : DiskLocation) (fam fam' : FileAndMetadata) (es : Fams) (m : M)
      → maps.entries m ≡ (l, fam) ∷ es
      → maps.entries (maps.insert m l fam') ≡ (l, fam') ∷ es
  entries-set_latest l fam fam' es m at =
      maps.entries-insert m l fam' ∙ ap (place l fam') at ∙ place_head l fam fam' es

  pub insert_lem :
      (config : Config) (file written_bytes capacity : ℕ) (dict : ZstdDict) (w : World T M)
      → w.next_file_lsn + written_bytes + 1 < 2 ^ 62
      → All (λ k. k < (batch_location w.next_file_lsn).word) (keys (maps.entries w.fams))
      → (fams' : M) × (insert crates config file written_bytes capacity 0 false dict w ≡ (
        ok (batch_location w.next_file_lsn, batch_location w.next_file_lsn ∷ []),
        record w { next_file_lsn = w.next_file_lsn + written_bytes + 1; fams = fams' },
      ))
        × (maps.entries fams'
            ≡ (
              batch_location w.next_file_lsn,
              new_fam config (batch_location w.next_file_lsn) file capacity dict,
            )
              ∷ maps.entries w.fams)
  unfolding insert DiskLocation.new_fam
  insert_lem config file written_bytes capacity dict w fits below =
      let l = batch_location w.next_file_lsn in
      let fam = new_fam config l file capacity dict in
      let absent : maps.get w.fams l ≡ none =
        maps.get_lem w.fams l ∙ lookup-latest l (maps.entries w.fams) below in
      let wraps : (w.next_file_lsn + written_bytes + 1) % u64_mod
          ≡ w.next_file_lsn + written_bytes + 1 =
        omega arith in
      let some_lsn : (w.next_file_lsn + 2 ^ 62 == 0) ≡ false = ground arith in
      (
        maps.insert w.fams l fam,
        rw
            (
              insert,
              wraps,
              batch_lsn w.next_file_lsn (omega arith),
              new_lem (w.next_file_lsn + 2 ^ 62) false (omega arith) (omega arith),
              absent,
              some_lsn,
            )
            refl,
        maps.entries-insert w.fams l fam ∙ place-latest l fam (maps.entries w.fams) below,
      )

  pub finalize_fam_lem :
      (l : DiskLocation) (fam : FileAndMetadata) (es : Fams) (metadata : Metadata) (path : Bytes)
      (w : World T M)
      → maps.entries w.fams ≡ (l, fam) ∷ es
      → fam.path ≡ none
      → fam.metadata ≡ none
      → fam.live_objects < 2 ^ 64
      → (fams' : M) × (finalize_fam crates l metadata 0 path w ≡ (ok tt, record w { fams = fams' }))
        × (maps.entries fams' ≡ (l, named fam metadata path) ∷ es)
  unfolding finalize_fam
  finalize_fam_lem l fam es metadata path w at no_path no_metadata small = (
    maps.insert w.fams l (named fam metadata path),
    rw
        (
          finalize_fam,
          get-latest l fam es w.fams at,
          no_path,
          no_metadata,
          sub64_zero fam.live_objects small,
          le→leb 0 fam.live_objects (omega arith),
        )
        refl,
    entries-set_latest l fam (named fam metadata path) es w.fams at,
  )

  pub drop_claims_lem :
      (l : DiskLocation) (fam : FileAndMetadata) (es : Fams) (w : World T M)
      → maps.entries w.fams ≡ (l, fam) ∷ es
      → fam.rewrite_claim ≡ true
      → (fams' : M) × (drop_claims crates (l ∷ []) w ≡ (ok tt, record w { fams = fams' }))
        × (maps.entries fams' ≡ (l, record fam { rewrite_claim = false }) ∷ es)
  unfolding drop_claims unclaim
  drop_claims_lem l fam es w at claimed = (
    maps.insert w.fams l (record fam { rewrite_claim = false }),
    rw (drop_claims, get-latest l fam es w.fams at, unclaim, claimed) refl,
    entries-set_latest l fam (record fam { rewrite_claim = false }) es w.fams at,
  )
