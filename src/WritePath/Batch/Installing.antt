-- ===== src/WritePath/Batch/Installing.antt =====
-- Steps 2 to 6 of `write_batch_inner` (src/writepath.rs) for a user's batch, on a disk that has no fault
-- to come: the file gets its number, its locations go into the location table, and it is finished.
use marble.Prelude.{
  ℕ, ◌+◌, ◌*◌, ◌^◌, ◌<◌, ◌≡◌, refl, sym, subst, false, none, [], ◌∷◌, List, Option, length, Outcome,
  ok,
}
use marble.Prelude.Assoc.{Assoc, lookup, Distinct}
use marble.Prelude.Bytes.{Bytes}
use marble.Config.{Config}
use marble.Disk.Calm.{IsCalm}
use marble.DiskLocation
use marble.DiskLocation.{DiskLocation}
use marble.DiskLocation.Laws.{parts}
use marble.Exec.{Exec}
use marble.FileMap.{drop_claims}
use marble.FileMap.Decrement.{decremented_all, Removable}
use marble.FileMap.Homes.{Fams, keys, IsDescending}
use marble.FileMap.Latest.{new_fam, named, batch_location, insert_lem, drop_claims_lem}
use marble.Metadata.{to_file_name}
use marble.World.{FileAndMetadata, Crates, World}
use marble.WritePath.Batch.{
  on_table, Compression, NewFile, is_empty, metadata_of, finish, install_and_finish, releasing,
}
use marble.WritePath.Batch.Begin.{insert_and_finish}
use marble.WritePath.Batch.Finish.{finished, finish_lem, trailer}
use marble.WritePath.Install.{nothing_installed, install, remove_failed}
use marble.WritePath.Install.Exact.{Newer, with_replaced, installed_word, replaced, install_lem}
use marble.WritePath.Objects.{Written}

module _ {T M : Type 0} (crates : Crates T M) (config : Config) {A : Type 0} where
  on_table_lem :
      (f : T → Outcome (T × A)) (w : World T M) (t : T) (a : A)
      → f w.location_table ≡ ok (t, a)
      → on_table crates config f w ≡ (ok a, record w { location_table = t })
  on_table_lem f w t a e = rw (on_table, e) refl

  releasing_lem :
      (claims : List DiskLocation) (m : Exec (World T M) A) (w w1 w2 : World T M) (a : A)
      → m w ≡ (ok a, w1)
      → drop_claims crates claims w1 ≡ (ok tt, w2)
      → releasing crates config claims m w ≡ (ok a, w2)
  releasing_lem claims m w w1 w2 a e d = rw (releasing, e, e, d) refl

module _ {T M : Type 0} (crates : Crates T M) (config : Config) (objects : Assoc (Option Bytes))
    (tmp_path : Bytes) (file : ℕ) (compression : Compression) (written : Written)
    (rest : List (Bytes × ℕ)) where
  open crates use {pages, maps}

  -- The new file of the batch.
  abbrev new_with : ℕ → ℕ → NewFile
  new_with lsn metadata_lsn = record {
    base_location = record { word = lsn * 2 };
    file = file;
    tmp_path = tmp_path;
    dict_bytes_opt = compression.dict_bytes_opt;
    metadata =
        metadata_of crates config compression written metadata_lsn
          (length written.new_relative_locations) (length objects) 0;
    new_relative_locations = written.new_relative_locations;
  }

  abbrev pub new : ℕ → NewFile
  new lsn = new_with lsn lsn

  -- The file is there, under its temporary name.
  abbrev pub IsWritten : World T M → Type 0
  IsWritten w =
      IsCalm w.disk
      × (w.disk.names ≡ (tmp_path, file) ∷ rest)
      × (length (w.disk.contents file) ≡ written.written_bytes)
      × Distinct written.new_relative_locations
      × (is_empty written.new_relative_locations ≡ false)

  -- The table, the map and the disk in the end.
  abbrev pub IsInstalled : ℕ → FileAndMetadata → Fams → World T M → T → M → Type 0
  IsInstalled lsn fam es w t fams =
      ((k : ℕ)
        → pages.get t k
          ≡ installed_word pages lsn (lookup k written.new_relative_locations)
              (pages.get w.location_table k))
      × (maps.entries fams
          ≡ (
            record { word = lsn * 2 },
            named fam (new lsn).metadata (to_file_name (new lsn).metadata),
          )
            ∷ decremented_all (replaced pages lsn w.location_table written.new_relative_locations)
                es)

  install_and_finish_lem :
      (lsn : ℕ) (fam : FileAndMetadata) (es : Fams) (w : World T M)
      → IsWritten w
      → Newer pages lsn w.location_table written.new_relative_locations
      → maps.entries w.fams ≡ (record { word = lsn * 2 }, fam) ∷ es
      → IsDescending (lsn * 2 ∷ keys es)
      → Removable
          (record { word = lsn * 2 })
          (replaced pages lsn w.location_table written.new_relative_locations)
          es
      → fam.path ≡ none
      → fam.metadata ≡ none
      → fam.live_objects < 2 ^ 64
      → (t : T) × (fams : M) × (install_and_finish crates config objects 0 [] tmp_path file
            compression written
            (record { word = lsn * 2 })
            w
          ≡ (
            ok tt,
            record w {
              location_table = t;
              fams = fams;
              disk = finished w.disk (new lsn) (trailer crates config (new lsn)) rest;
            },
          ))
        × IsInstalled lsn fam es w t fams
  unfolding install_and_finish remove_failed
  install_and_finish_lem lsn fam es w (calm, names, size, distinct, some_locations) newer at d r
        no_path no_metadata small =
      let locs = written.new_relative_locations in
      let (t, e1, at1) =
        install_lem pages lsn w.location_table locs nothing_installed distinct newer in
      let (fams, e2, at2) =
        finish_lem crates config (new lsn) fam (replaced pages lsn w.location_table locs) es
          (record w { location_table = t }) rest calm names size refl at d r no_path no_metadata
          small in
      let lsn_of : DiskLocation.lsn (record { word = lsn * 2 }) ≡ lsn =
        (parts lsn false (record { word = lsn * 2 }) refl).0 in
      let w2 = record w {
        location_table = t;
        fams = fams;
        disk = finished w.disk (new lsn) (trailer crates config (new lsn)) rest;
      } in
      let e2' =
        subst
          (λ n.
            finish crates config (new_with lsn n)
              (with_replaced pages 0 nothing_installed (replaced pages lsn w.location_table locs))
              (record w { location_table = t })
            ≡ (ok tt, w2))
          (sym lsn_of) e2 in
      (
        t,
        fams,
        rw
            (
              lsn_of,
              on_table_lem crates config (λ t. install pages [] lsn t locs nothing_installed) w t _
                  e1,
              some_locations,
              e2',
            )
            refl,
        (at1, at2),
      )

  -- The number of the batch's file.
  abbrev pub batch_lsn : World T M → ℕ
  batch_lsn w = w.next_file_lsn + 2 ^ 62

  -- The record of the batch's file in the end.
  abbrev pub final_fam : World T M → FileAndMetadata
  final_fam w =
      record (named
        (new_fam config (batch_location w.next_file_lsn) file
          (length written.new_relative_locations) compression.decompressor)
        (new (batch_lsn w)).metadata (to_file_name (new (batch_lsn w)).metadata)) {
          rewrite_claim = false;
        }

  pub insert_and_finish_lem :
      (w : World T M)
      → IsWritten w
      → Newer pages (batch_lsn w) w.location_table written.new_relative_locations
      → w.next_file_lsn + written.written_bytes + 1 < 2 ^ 62
      → IsDescending (batch_lsn w * 2 ∷ keys (maps.entries w.fams))
      → Removable
          (batch_location w.next_file_lsn)
          (replaced pages (batch_lsn w) w.location_table written.new_relative_locations)
          (maps.entries w.fams)
      → length written.new_relative_locations < 2 ^ 64
      → (t : T) × (fams : M) × (insert_and_finish crates config objects tmp_path file compression
            written w
          ≡ (
            ok tt,
            record w {
              location_table = t;
              fams = fams;
              next_file_lsn = w.next_file_lsn + written.written_bytes + 1;
              disk =
                  finished w.disk
                    (new (batch_lsn w))
                    (trailer crates config (new (batch_lsn w)))
                    rest;
            },
          ))
        × ((k : ℕ)
            → pages.get t k
              ≡ installed_word pages
                  (batch_lsn w)
                  (lookup k written.new_relative_locations)
                  (pages.get w.location_table k))
        × (maps.entries fams
            ≡ (batch_location w.next_file_lsn, final_fam w)
              ∷ decremented_all
                  (replaced pages (batch_lsn w) w.location_table written.new_relative_locations)
                  (maps.entries w.fams))
  insert_and_finish_lem w written_w newer fits d r few =
      let base = batch_location w.next_file_lsn in
      let fam =
        new_fam config base file (length written.new_relative_locations) compression.decompressor in
      let (fams1, e1, at1) =
        insert_lem crates config file written.written_bytes (length written.new_relative_locations)
          compression.decompressor w fits d.1 in
      let w1 = record w {
        next_file_lsn = w.next_file_lsn + written.written_bytes + 1;
        fams = fams1;
      } in
      let (t, fams2, e2, (gets_t, at2)) =
        install_and_finish_lem (batch_lsn w) fam (maps.entries w.fams) w1 written_w newer at1 d r
          refl refl few in
      let w2 = record w1 {
        location_table = t;
        fams = fams2;
        disk = finished w.disk (new (batch_lsn w)) (trailer crates config (new (batch_lsn w))) rest;
      } in
      let (fams3, e3, at3) = drop_claims_lem crates base _ _ w2 at2 refl in
      let w3 = record w2 { fams = fams3 } in
      (
        t,
        fams3,
        rw
            (
              e1,
              releasing_lem crates config (base ∷ [])
                  (install_and_finish crates config objects 0 [] tmp_path file compression written
                    base)
                  w1 w2 w3 tt e2 e3,
            )
            refl,
        gets_t,
        at3,
      )
