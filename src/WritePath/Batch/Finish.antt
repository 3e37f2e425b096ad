-- ===== src/WritePath/Batch/Finish.antt =====
-- Steps 5 and 6 of `write_batch_inner` (src/writepath.rs) on a disk that has no fault to come: the file
-- gets its trailer and its name, and the file map follows.
use marble.Prelude.{
  ℕ, ◌+◌, ◌*◌, ◌^◌, ◌<◌, ◌≡◌, refl, ◌∙◌, arith, none, ◌∷◌, List, length, ok, ==_refl,
}
use marble.Prelude.Assoc.{Assoc}
use marble.Prelude.Bytes.{Bytes}
use marble.Config.{Config}
use marble.Disk.{Disk, unlink}
use marble.Disk.Calm.{
  IsCalm, sync_calm, appended, appended-IsCalm, length-appended, names-appended, write_all_at_end,
  rename_head, file_len_calm,
}
use marble.DiskLocation.{DiskLocation}
use marble.FileMap.Decrement.{decremented_all, Removable, decrement_evacuated_fams_lem}
use marble.FileMap.Homes.{Fams, keys, IsDescending}
use marble.FileMap.Latest.{named, finalize_fam_lem}
use marble.Metadata.{to_file_name}
use marble.Trailer.{trailer_bytes, dict_bytes}
use marble.Trailer.RoundTrip.{length-trailer_bytes}
use marble.World.{FileAndMetadata, Crates, World}
use marble.WritePath.Batch.{NewFile, write_and_rename, settle, finish}
use marble.WritePath.Install.{nothing_installed}
use marble.WritePath.Install.Exact.{with_replaced}

-- The disk with the trailer in the file and the file under its name.
abbrev pub finished : Disk → NewFile → Bytes → List (Bytes × ℕ) → Disk
finished d new trailer rest = record (appended d new.file trailer) {
  names = (to_file_name new.metadata, new.file) ∷ unlink (to_file_name new.metadata) rest;
}

module _ {T M : Type 0} (crates : Crates T M) (config : Config) (new : NewFile) where
  open crates use {pages, maps, crc}

  abbrev pub trailer : Bytes
  trailer = trailer_bytes crc new.new_relative_locations new.dict_bytes_opt

  write_and_rename_lem :
      (w : World T M) (rest : List (Bytes × ℕ))
      → IsCalm w.disk
      → w.disk.names ≡ (new.tmp_path, new.file) ∷ rest
      → length (w.disk.contents new.file) ≡ new.metadata.trailer_offset
      → write_and_rename crates config new (to_file_name new.metadata) w
        ≡ (ok tt, record w { disk = finished w.disk new trailer rest })
  unfolding write_and_rename
  write_and_rename_lem w rest calm at size =
      let d1 = appended w.disk new.file trailer in
      let calm1 = appended-IsCalm w.disk new.file trailer calm in
      rw
        (
          write_all_at_end new.file new.metadata.trailer_offset trailer w.disk calm size,
          sync_calm d1 calm1,
          sync_calm d1 calm1,
          rename_head new.tmp_path (to_file_name new.metadata) new.file rest d1 calm1
              (names-appended w.disk new.file trailer ∙ at),
        )
        refl

  -- `expected_file_len`
  abbrev pub IsSized : Type 0
  IsSized =
      new.metadata.file_size
      ≡ new.metadata.trailer_offset
        + 4
        + 8
        + 8
        + 16 * length new.new_relative_locations
        + length (dict_bytes new.dict_bytes_opt)

  settle_lem :
      (fam : FileAndMetadata) (olds : Assoc DiskLocation) (es : Fams) (w : World T M)
      → IsCalm w.disk
      → length (w.disk.contents new.file) ≡ new.metadata.file_size
      → maps.entries w.fams ≡ (new.base_location, fam) ∷ es
      → IsDescending (new.base_location.word ∷ keys es)
      → Removable new.base_location olds es
      → fam.path ≡ none
      → fam.metadata ≡ none
      → fam.live_objects < 2 ^ 64
      → (fams' : M) × (settle crates config new
            (with_replaced pages 0 nothing_installed olds)
            (to_file_name new.metadata)
            w
          ≡ (ok tt, record w { fams = fams' }))
        × (maps.entries fams'
            ≡ (new.base_location, named fam new.metadata (to_file_name new.metadata))
              ∷ decremented_all olds es)
  unfolding settle
  settle_lem fam olds es w calm size at d r no_path no_metadata small =
      let (fams1, e1, at1) =
        decrement_evacuated_fams_lem crates new.base_location fam olds es w at d r in
      let (fams2, e2, at2) =
        finalize_fam_lem crates new.base_location fam (decremented_all olds es) new.metadata
          (to_file_name new.metadata) (record w { fams = fams1 }) at1 no_path no_metadata small in
      (
        fams2,
        rw (file_len_calm new.file w.disk calm, size, ==_refl new.metadata.file_size, e1, e2) refl,
        at2,
      )

  pub finish_lem :
      (fam : FileAndMetadata) (olds : Assoc DiskLocation) (es : Fams) (w : World T M)
      (rest : List (Bytes × ℕ))
      → IsCalm w.disk
      → w.disk.names ≡ (new.tmp_path, new.file) ∷ rest
      → length (w.disk.contents new.file) ≡ new.metadata.trailer_offset
      → IsSized
      → maps.entries w.fams ≡ (new.base_location, fam) ∷ es
      → IsDescending (new.base_location.word ∷ keys es)
      → Removable new.base_location olds es
      → fam.path ≡ none
      → fam.metadata ≡ none
      → fam.live_objects < 2 ^ 64
      → (fams' : M) × (finish crates config new (with_replaced pages 0 nothing_installed olds) w
          ≡ (ok tt, record w { fams = fams'; disk = finished w.disk new trailer rest }))
        × (maps.entries fams'
            ≡ (new.base_location, named fam new.metadata (to_file_name new.metadata))
              ∷ decremented_all olds es)
  unfolding finish
  finish_lem fam olds es w rest calm names size sized at d r no_path no_metadata small =
      let w1 = record w { disk = finished w.disk new trailer rest } in
      let calm1 : IsCalm w1.disk = appended-IsCalm w.disk new.file trailer calm in
      let full : length (w1.disk.contents new.file) ≡ new.metadata.file_size =
        length-appended w.disk new.file trailer
        ∙ omega (
          arith,
          size,
          sized,
          length-trailer_bytes crc new.new_relative_locations new.dict_bytes_opt,
        ) in
      let (fams', e, at') = settle_lem fam olds es w1 calm1 full at d r no_path no_metadata small in
      (fams', rw (write_and_rename_lem w rest calm names size, e) refl, at')
