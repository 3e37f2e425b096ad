-- ===== src/Store/Durable/Corrupt.antt =====
-- `Config::open` (src/recovery.rs) on a log whose last file has a damaged trailer: the records of the
-- files before it are dropped with no live objects, and `Drop` of `FileAndMetadata` (src/lib.rs) removes
-- their files.
use marble.Prelude.{
  ℕ, ◌+◌, ◌^◌, ◌≤◌, ◌<◌, ◌≡◌, refl, ap, sym, ◌∙◌, arith, some, List, [], ◌∷◌, ◌++◌, append-nil, All,
  length, length-append, ok, err, ErrorKind, ltb, lt→ltb, true, subst, map,
}
use marble.Prelude.Bytes.{Bytes}
use marble.Config.{Config, validate}
use marble.Disk
use marble.Disk.Calm.{
  IsCalm, sync_calm, file_len_calm, read_exact_at_part, same_name_refl, remove_file_found,
}
use marble.FileMap.{drop_fams, drop_fam, sub64}
use marble.FileReads.{read_range_at, read_trailer}
use marble.Metadata.{Metadata, to_file_name}
use marble.Metadata.RoundTrip.{IsWide, parse-to_file_name}
use marble.FileMap.Lsn.{mask-lt}
use marble.Recovery.Directory.{
  insert_by_lsn, masked_lsn, read_entries, read_storage_directory, sort_by_lsn,
}
use marble.Recovery.Names.{to_file_name-is_utf8}
use marble.Recovery.Open.{
  fresh, Found, open_entry, recover_file, recover_files, recover, open_config, or_drop,
}
use marble.Recovery.Scan.{with_names}
use marble.Store.Durable.{LogFile, IsLog, directory, recovered}
use marble.Store.Durable.Files.{recover_files-append, recover_files-listing}
use marble.Store.Durable.Found.{IsNew, AllFound, later-IsNew, AllFound-later, directory-AllFound}
use marble.Store.Durable.Listing.{
  not_tmp, named_file, listing, listing-before, All-before, insert_by_lsn-last, sort_by_lsn-listing,
  read_entries-directory,
}
use marble.Trailer.{read_trailer_from_buf}
use marble.World.{Crates, World}

module _ {T M : Type 0} (crates : Crates T M) where
  open crates use {maps, crc}

  -- The files of the recovered records go, and the one in front stays.
  drop_fams-recovered :
      (m : Metadata) (file : ℕ) (fs : List LogFile) (w : World T M)
      → IsCalm w.disk
      → IsNew m fs
      → w.disk.names ≡ (to_file_name m, file) ∷ directory fs
      → drop_fams crates (recovered crates fs) w
        ≡ (ok tt, with_names ((to_file_name m, file) ∷ []) w)
  unfolding drop_fams drop_fam IsNew Disk.find_name Disk.unlink
  drop_fams-recovered m file [] w calm new at = ap (λ names. (ok tt, with_names names w)) at
  drop_fams-recovered m file (f ∷ fs) w calm new at =
      let name = to_file_name f.metadata in
      let found : Disk.find_name name w.disk.names ≡ some f.file =
        rw (at, new.0.0, same_name_refl name) refl in
      let left : Disk.unlink name w.disk.names ≡ (to_file_name m, file) ∷ directory fs =
        rw (at, new.0.0, same_name_refl name) refl in
      rw (remove_file_found name f.file w.disk calm found, left)
        (drop_fams-recovered m file fs (with_names ((to_file_name m, file) ∷ directory fs) w) calm
          new.1 refl)

  module _ (config : Config) (limit most next base file : ℕ) (room : most < 2 ^ 62)
      (fs : List LogFile) (m : Metadata) (objects damaged : Bytes) (e : ErrorKind) (w : World T M)
      (calm : IsCalm w.disk) (log : IsLog crc w.disk.contents limit most next fs) (wide : IsWide m)
      (lsn : m.lsn ≡ base + 2 ^ 62) (after : next ≤ base) (in_log : base < 2 ^ 62)
      (holds : w.disk.contents file ≡ objects ++ damaged)
      (trailer_offset : m.trailer_offset ≡ length objects)
      (file_size : m.file_size ≡ length objects + length damaged) (small : m.file_size < 2 ^ 62)
      (fails : read_trailer_from_buf crc damaged ≡ err e)
      (names : w.disk.names ≡ (to_file_name m, file) ∷ directory fs) where
    abbrev w0 : World T M
    w0 = fresh crates w.tmp_counter w.disk

    abbrev nothing_found : Found
    nothing_found = record { max_file_lsn = 0; max_file_size = 0; recovery_page_table = [] }

    metadata-IsNew : IsNew m fs
    metadata-IsNew = later-IsNew crc w.disk.contents limit most m base next fs wide lsn after log

    size_there : length (w.disk.contents file) ≡ m.file_size
    size_there = ap length holds ∙ omega (arith, length-append {0} objects damaged, file_size)

    entries_lem :
        read_entries w.disk.names [] w0
        ≡ (ok ((m, to_file_name m) ∷ map (λ f. named_file f) fs), w0)
    unfolding read_entries
    entries_lem =
        ap (λ n. read_entries n [] w0) names
        ∙ rw
            (
              read_entries,
              sync_calm w.disk calm,
              file_len_calm file w.disk calm,
              size_there,
              to_file_name-is_utf8 m,
              not_tmp m,
              parse-to_file_name m wide,
            )
            (read_entries-directory crc w.disk.contents limit most next fs
              ((m, to_file_name m) ∷ []) w0 calm refl log)

    sorted :
        sort_by_lsn ((m, to_file_name m) ∷ map (λ f. named_file f) fs)
        ≡ listing fs ++ ((m, to_file_name m) ∷ [])
    unfolding sort_by_lsn masked_lsn
    sorted =
        let masked : masked_lsn m.lsn ≡ base =
          mask-lt m.lsn (omega (arith, lsn, in_log)) ∙ omega (arith, lsn, in_log) in
        let before =
          subst (λ n. All (λ (p : Metadata × Bytes). masked_lsn p.0.lsn < n) (listing fs))
            (sym masked)
            (All-before next base (listing fs) after (
              listing-before crc w.disk.contents limit most next fs log
                (omega (arith, after, in_log)))) in
        ap (insert_by_lsn m (to_file_name m)) (
          sort_by_lsn-listing crc w.disk.contents limit most next fs log
            (omega (arith, after, in_log)))
        ∙ insert_by_lsn-last crc w.disk.contents limit most m (to_file_name m) (listing fs) before

    scans : read_storage_directory w0 ≡ (ok (listing fs ++ ((m, to_file_name m) ∷ [])), w0)
    unfolding read_storage_directory
    scans = rw (sync_calm w.disk calm, entries_lem, sorted) refl

    damaged_trailer :
        (u : World T M)
        → u.disk ≡ w.disk
        → read_trailer crates file m.trailer_offset m.file_size u ≡ (err e, u)
    unfolding read_trailer read_range_at
    damaged_trailer u same =
        let size : sub64 m.file_size m.trailer_offset ≡ length damaged =
          omega (arith, file_size, trailer_offset, small) in
        let short : ltb (length damaged) (2 ^ 63) ≡ true =
          lt→ltb (length damaged) (2 ^ 63) (omega (arith, file_size, small)) in
        let reads =
          read_exact_at_part file m.trailer_offset (length damaged) u.disk objects damaged []
            (ap (λ d. d.faults) same ∙ calm)
            (ap (λ d. d.contents file) same
              ∙ holds
              ∙ ap (λ b. objects ++ b) (sym (append-nil damaged)))
            (sym trailer_offset) refl in
        rw (size, short, reads, fails) refl

    damaged_file :
        (found : Found) (u : World T M)
        → u.disk ≡ w.disk
        → recover_file crates m (to_file_name m) found u ≡ (err e, u)
    unfolding recover_file open_entry Disk.find_name
    damaged_file found u same =
        let here : Disk.find_name (to_file_name m) u.disk.names ≡ some file =
          rw (same, names, same_name_refl (to_file_name m)) refl in
        rw (sync_calm u.disk (ap (λ d. d.faults) same ∙ calm), here, damaged_trailer u same) refl

    -- One damaged file loses the others. The directory has the files of a log, and in front of them a
    -- later one, whose trailer `read_trailer_from_buf` refuses with the error `e`. Where no call of the
    -- system fails, the configuration is valid, and the log and its files are shorter than 2 ^ 62, `open`
    -- returns `e`, and of the whole directory only the damaged file is left.
    pub open_config-corrupt :
        validate config ≡ ok tt
        → (w' : World T M) × (open_config crates config w ≡ (err e, w'))
          × (w'.disk.names ≡ (to_file_name m, file) ∷ [])
    unfolding open_config recover recover_files or_drop
    open_config-corrupt valid =
        let (found, fams, e1, is_found, at) =
          recover_files-listing crates limit most room next fs w0 calm
            (subst (λ n. AllFound n fs) (sym names)
              (AllFound-later m file (directory fs) fs metadata-IsNew
                (directory-AllFound crc w.disk.contents limit most next fs log)))
            (omega (arith, after, in_log)) log maps.entries-empty in
        let w1 = record w0 { fams = fams } in
        let fails_there : recover_files crates (listing fs ++ ((m, to_file_name m) ∷ []))
              nothing_found w0
            ≡ (err e, w1) =
          recover_files-append crates (listing fs) ((m, to_file_name m) ∷ []) nothing_found w0
          ∙ rw (e1, damaged_file found w1 refl) refl in
        let drops : drop_fams crates (maps.entries fams) w1
            ≡ (ok tt, with_names ((to_file_name m, file) ∷ []) w1) =
          ap (λ es. drop_fams crates es w1) at
          ∙ drop_fams-recovered m file fs w1 calm metadata-IsNew names in
        (
          with_names ((to_file_name m, file) ∷ []) w1,
          rw (valid, scans, fails_there, drops) refl,
          refl,
        )
