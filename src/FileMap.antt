-- ===== src/FileMap.antt =====
-- src/file_map.rs: the storage files in the order of their locations, with the number of objects in
-- each that the location table still points to. `debug_delay` is empty, and so is
-- `verify_file_uninhabited` without the `runtime_validation` feature.
pub mod Lsn
pub mod Homes
pub mod Decrement
pub mod Counts
pub mod Moves
pub mod Latest
pub mod Erase
pub mod Claims
pub mod Defrag
pub mod Prune
use marble.Prelude.{
  ℕ, ◌+◌, ◌-◌, ◌*◌, ◌/◌, ◌%◌, ◌^◌, min, max, bit_or, Bool, true, false, ◌&&◌, ◌||◌, not, Option,
  none, some, List, [], ◌∷◌, ◌++◌, length, Outcome, ok, err, panic, assert, unwrap, ltb, leb, ◌==◌,
  if◌then◌else◌,
}
use marble.Prelude.Assoc.{Assoc}
use marble.Prelude.Bytes.{Bytes, u64_mod}
use marble.Config.{Config}
use marble.ConcurrentMap.{Entries}
use marble.Disk
use marble.DiskLocation
use marble.DiskLocation.{DiskLocation}
use marble.Exec.{Exec, ◌>>=◌, ◌>>◌, pure, lift, gets, modify, attempt}
use marble.Metadata.{Metadata}
use marble.Trailer.{ZstdDict}
use marble.World.{FileAndMetadata, Crates, World, on_disk}

abbrev pub new_write_batch_bit : ℕ
new_write_batch_bit = 2 ^ 62

-- `u64::MAX - NEW_WRITE_BATCH_BIT`
abbrev pub new_write_batch_mask : ℕ
new_write_batch_mask = 2 ^ 64 - 1 - new_write_batch_bit

abbrev pub same_location : DiskLocation → DiskLocation → Bool
same_location a b = a.word == b.word

-- A subtraction of `fetch_sub`, which wraps around.
abbrev pub sub64 : ℕ → ℕ → ℕ
sub64 a b = (a + (u64_mod - b % u64_mod)) % u64_mod

-- `assign_lsn` is the word that `insert` gives a file: the batches of users are marked by a high bit.
unfoldable pub assign_lsn : ℕ → Bool → ℕ
assign_lsn lsn_base is_gc = if is_gc then lsn_base else bit_or lsn_base new_write_batch_bit

-- `FileAndMetadata::install_metadata_and_path` of src/lib.rs: both are set once.
unfoldable pub install_metadata_and_path :
    Metadata → Bytes → FileAndMetadata → Outcome FileAndMetadata
install_metadata_and_path metadata path fam = elim fam.path [
  | some _ ↦ panic
  | none ↦ elim fam.metadata [
    | some _ ↦ panic
    | none ↦ ok (record fam { path = some path; metadata = some metadata })
  ]
]

module _ {T M : Type 0} (crates : Crates T M) where
  open crates use {maps}

  -- A change to a file's record, which the map and its readers share.
  abbrev pub set_fam : DiskLocation → FileAndMetadata → World T M → World T M
  set_fam location fam w = record w { fams = maps.insert w.fams location fam }

  abbrev pub get_fam : DiskLocation → Exec (World T M) (Option FileAndMetadata)
  get_fam location = gets λ w. maps.get w.fams location

  -- `Drop for DeferUnclaim`: a claim on a file that is gone is passed over.
  unfoldable pub unclaim : DiskLocation → Option FileAndMetadata → Exec (World T M) (Unit {0})
  unclaim claim none = pure tt
  unclaim claim (some fam) = do
    modify (set_fam claim (record fam { rewrite_claim = false }))
    lift (assert fam.rewrite_claim)

  unfoldable pub drop_claims : List DiskLocation → Exec (World T M) (Unit {0})
  unfolding unclaim
  drop_claims [] = pure tt
  drop_claims (claim ∷ rest) = do found ← get_fam claim; unclaim claim found; drop_claims rest

  unfoldable pub fam_for_location : DiskLocation → Exec (World T M) FileAndMetadata
  fam_for_location location = do
    found ← gets λ w. maps.seek w.fams location
    (key, fam) ← lift (unwrap found)
    pure fam

  -- Returns the file's location and the claim on it.
  unfoldable pub insert :
      Config → ℕ → ℕ → ℕ → ℕ → Bool → ZstdDict → Exec (World T M) (DiskLocation × List DiskLocation)
  unfolding assign_lsn DiskLocation.new_fam
  insert config file written_bytes initial_capacity generation is_gc decompressor = do
    lsn_base ← gets λ w. w.next_file_lsn
    modify λ w. record w { next_file_lsn = (w.next_file_lsn + written_bytes + 1) % u64_mod }
    let lsn = assign_lsn lsn_base is_gc
    location ← lift (DiskLocation.new_fam lsn)
    let fam : FileAndMetadata = record {
      file = file;
      live_objects = initial_capacity;
      generation = generation;
      location = location;
      synced = config.fsync_each_batch;
      metadata = none;
      path = none;
      rewrite_claim = true;
      zstd_dict = decompressor;
    }
    old ← get_fam location
    modify (set_fam location fam)
    lift (assert (elim old [ none ↦ true | some _ ↦ false ]))
    lift (assert (not (lsn == 0)))
    pure (location, location ∷ [])

  -- The loop of `sync_all`: a file that fails to sync ends it.
  unfoldable pub sync_fams : Entries FileAndMetadata → Bool → Exec (World T M) Bool
  unfolding Disk.sync
  sync_fams [] synced_files = pure synced_files
  sync_fams ((location, fam) ∷ rest) synced_files =
      if fam.synced then sync_fams rest synced_files else do
        on_disk Disk.sync
        modify (set_fam location (record fam { synced = true }))
        sync_fams rest true

  unfoldable pub sync_all : Exec (World T M) Bool
  unfolding sync_fams
  sync_all = do fams ← gets λ w. maps.entries w.fams; sync_fams fams false

  unfoldable pub count_fams : Entries FileAndMetadata → ℕ × ℕ × ℕ × ℕ → ℕ × ℕ × ℕ × ℕ
  count_fams [] totals = totals
  count_fams ((location, fam) ∷ rest) (fams_len, total_file_size, stored_objects, live_objects) =
      count_fams rest (elim fam.metadata [
        | none ↦ (fams_len, total_file_size, stored_objects, live_objects)
        | some metadata ↦ (
          fams_len + 1,
          (total_file_size + metadata.file_size) % u64_mod,
          (stored_objects + metadata.present_objects) % u64_mod,
          (live_objects + fam.live_objects) % u64_mod,
        )
      ])

  -- The counts of files, their size, the objects stored and the live objects.
  unfoldable pub stats : World T M → ℕ × ℕ × ℕ × ℕ
  unfolding count_fams
  stats w = count_fams (maps.entries w.fams) (0, 0, 0, 0)

  -- `Drop for FileAndMetadata` on a record that nobody holds any more: an empty file is removed, and
  -- an error of that is only printed.
  unfoldable pub drop_fam : FileAndMetadata → Exec (World T M) (Unit {0})
  unfolding Disk.remove_file
  drop_fam fam = if not (fam.live_objects == 0) then pure tt else do
    path ← lift (unwrap fam.path)
    ignored ← attempt (on_disk (Disk.remove_file path))
    pure tt

  -- What is left of the map is dropped, with the records that nothing else holds.
  unfoldable pub drop_fams : Entries FileAndMetadata → Exec (World T M) (Unit {0})
  unfolding drop_fam
  drop_fams [] = pure tt
  drop_fams ((location, fam) ∷ rest) = drop_fam fam >> drop_fams rest

  -- `self.fams.remove(..).unwrap()`
  unfoldable pub take_fam : DiskLocation → Exec (World T M) FileAndMetadata
  take_fam location = do
    found ← get_fam location
    modify λ w. record w { fams = maps.remove w.fams location }
    lift (unwrap found)

  unfoldable pub delete_partially_installed_fam : DiskLocation → Bytes → Exec (World T M) (Unit {0})
  unfolding take_fam drop_fam
  delete_partially_installed_fam location tmp_path = do
    fam ← take_fam location
    lift (assert (elim fam.path [ none ↦ true | some _ ↦ false ]))
    drop_fam (record fam { live_objects = 0; path = some tmp_path })

  unfoldable pub finalize_fam : DiskLocation → Metadata → ℕ → Bytes → Exec (World T M) (Unit {0})
  unfolding install_metadata_and_path
  finalize_fam location metadata subtract_from_len new_path = do
    found ← get_fam location
    fam ← lift (unwrap found)
    fam' ← lift (install_metadata_and_path metadata new_path fam)
    modify
        (set_fam location (record fam' { live_objects = sub64 fam.live_objects subtract_from_len }))
    lift (assert (leb subtract_from_len fam.live_objects))

  unfoldable pub decrement_evacuated_fams :
      DiskLocation → Assoc DiskLocation → Exec (World T M) (Unit {0})
  decrement_evacuated_fams new_base_location [] = pure tt
  decrement_evacuated_fams new_base_location ((object_id, replaced_location) ∷ rest) = do
    found ← gets λ w. maps.seek w.fams replaced_location
    (fam_location, fam) ← lift (unwrap found)
    lift (assert (not (same_location fam_location new_base_location)))
    modify (set_fam fam_location (record fam { live_objects = sub64 fam.live_objects 1 }))
    lift (assert (leb 1 fam.live_objects))
    decrement_evacuated_fams new_base_location rest
