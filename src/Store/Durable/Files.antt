-- ===== src/Store/Durable/Files.antt =====
-- The loop of `open` over the files of the log (src/recovery.rs).
use marble.Prelude.{
  ℕ, ◌+◌, ◌*◌, ◌^◌, ◌≤◌, ◌<◌, ◌≡◌, refl, ap, sym, ◌∙◌, arith, none, some, List, [], ◌∷◌, ◌++◌,
  append-nil, All, length, ok, max, true, false, ltb, lt→ltb,
}
use mathlib.Core.Path.{fun_ext}
use marble.Prelude.Assoc.{lookup, Distinct}
use marble.Prelude.Bytes.{Bytes}
use marble.Disk
use marble.Disk.Calm.{IsCalm, sync_calm, file_len_calm, read_exact_at_part}
use marble.DiskLocation
use marble.DiskLocation.{DiskLocation}
use marble.DiskLocation.Laws.{new_lem}
use marble.Exec.{◌>>=◌, bind_assoc}
use marble.FileMap.Homes.{keys, place-latest, lookup-latest}
use marble.FileMap.{sub64}
use marble.FileReads.{read_range_at, read_trailer}
use marble.Metadata.{to_file_name}
use marble.Recovery.Directory.{Files, masked_lsn}
use marble.Recovery.Locations.{recover_locations}
use marble.Recovery.Open.{recovered_fam, Found, open_entry, recover_file, recover_files}
use marble.Recovery.Order.{newest, recover_locations-steps}
use marble.Store.After.{All-below}
use marble.Store.Durable.{LogFile, file_lsn, file_location, IsWhole, IsLog, log_word, recovered}
use marble.Store.Durable.Found.{AllFound}
use marble.Store.Durable.Listing.{listing, whole-length, masked-file_lsn}
use marble.Store.Durable.Words.{newest-from_raw, IsWithin-Follow, IsWithin-AreWide}
use marble.Trailer.{trailer_bytes}
use marble.Trailer.RoundTrip.{stored_dict, length-trailer_bytes, read_trailer-trailer_bytes}
use marble.World.{Crates, World}

new_fam_lem :
    (lsn : ℕ) → 0 < lsn → lsn < 2 ^ 63 → DiskLocation.new_fam lsn ≡ ok (record { word = lsn * 2 })
unfolding DiskLocation.new_fam
new_fam_lem lsn p h = new_lem lsn false h (omega arith)

module _ {T M : Type 0} (crates : Crates T M) where
  open crates use {pages, maps, crc}

  pub recover_files-append :
      (files more : Files) (found : Found) (w : World T M)
      → recover_files crates (files ++ more) found w
        ≡ (recover_files crates files found >>= λ f. recover_files crates more f) w
  unfolding recover_files
  recover_files-append [] more found w = refl
  recover_files-append ((m, name) ∷ files) more found w =
      ap (λ k. (recover_file crates m name found >>= k) w)
        (fun_ext λ f. fun_ext λ w1. recover_files-append files more f w1)
      ∙ bind_assoc (λ f. recover_files crates files f) (λ f. recover_files crates more f)
          (recover_file crates m name found) w

  read_range-trailer :
      (limit most : ℕ) (f : LogFile) (w : World T M)
      → IsCalm w.disk
      → most < 2 ^ 62
      → IsWhole crc w.disk.contents limit most f
      → read_range_at crates f.file f.metadata.trailer_offset f.metadata.file_size w
        ≡ (ok (trailer_bytes crc f.locations none), w)
  unfolding read_range_at
  read_range-trailer limit most f w calm room whole =
      let trailer = trailer_bytes crc f.locations none in
      let size : sub64 f.metadata.file_size f.metadata.trailer_offset ≡ length trailer = omega (
        arith,
        room,
        whole.size,
        whole.file_size,
        whole.trailer_offset,
        length-trailer_bytes crc f.locations none,
      ) in
      let short : ltb (length trailer) (2 ^ 63) ≡ true = lt→ltb (length trailer) (2 ^ 63) (
        omega
          (arith, room, whole.size, whole.file_size, length-trailer_bytes crc f.locations none)) in
      let reads =
        read_exact_at_part f.file f.metadata.trailer_offset (length trailer) w.disk f.objects
          trailer [] calm (whole.holds ∙ ap (λ b. f.objects ++ b) (sym (append-nil trailer)))
          (sym whole.trailer_offset) refl in
      rw (size, short, reads) refl

  -- A file's trailer is read back.
  read_trailer-whole :
      (limit most : ℕ) (f : LogFile) (w : World T M)
      → IsCalm w.disk
      → most < 2 ^ 62
      → IsWhole crc w.disk.contents limit most f
      → read_trailer crates f.file f.metadata.trailer_offset f.metadata.file_size w
        ≡ (ok (f.locations, none), w)
  unfolding read_trailer stored_dict
  read_trailer-whole limit most f w calm room whole =
      rw
        (
          read_range-trailer limit most f w calm room whole,
          read_trailer-trailer_bytes crc f.locations none
              (IsWithin-AreWide (length f.objects) f.locations
                (omega (arith, room, whole.size, whole.file_size)) whole.within)
              (omega (arith, room, whole.size, whole.file_size)),
        )
        refl

  module _ (limit most : ℕ) (room : most < 2 ^ 62) where
    -- What the loop has gathered from the files.
    pub record IsFound (contents : ℕ → Bytes) (next : ℕ) (fs : List LogFile) (found : Found)
        : Type 0 where
      pub table :
          (k : ℕ) → lookup k found.recovery_page_table ≡ DiskLocation.from_raw (log_word pages fs k)
      pub distinct : Distinct found.recovery_page_table
      pub log : IsLog crc contents limit most (found.max_file_lsn + found.max_file_size + 1) fs
      pub max_file_lsn : found.max_file_lsn ≤ next
      pub max_file_size : found.max_file_size ≤ most

    pub keys-below :
        (contents : ℕ → Bytes) (next : ℕ) (fs : List LogFile)
        → IsLog crc contents limit most next fs
        → All (λ k. k < (next + 2 ^ 62) * 2) (keys (recovered crates fs))
    keys-below contents next [] log = tt
    keys-below contents next (f ∷ fs) (ends, whole, log) = (
      omega (arith, ends),
      All-below ((f.base + 2 ^ 62) * 2) ((next + 2 ^ 62) * 2) (keys (recovered crates fs))
          (omega (arith, ends)) (keys-below contents f.base fs log),
    )

    recover_file_lem :
        (next : ℕ) (f : LogFile) (fs : List LogFile) (found : Found) (w : World T M)
        → IsCalm w.disk
        → Disk.find_name (to_file_name f.metadata) w.disk.names ≡ some f.file
        → next < 2 ^ 62
        → IsLog crc w.disk.contents limit most next (f ∷ fs)
        → IsFound w.disk.contents f.base fs found
        → maps.entries w.fams ≡ recovered crates fs
        → (found' : Found) × (fams' : M) × (recover_file crates f.metadata
              (to_file_name f.metadata)
              found
              w
            ≡ (ok found', record w { fams = fams' }))
          × IsFound w.disk.contents next (f ∷ fs) found'
          × (maps.entries fams' ≡ recovered crates (f ∷ fs))
    unfolding recover_file open_entry log_word
    recover_file_lem next f fs found w calm here in_log (ends, whole, log) is_found at =
        let m = f.metadata in
        let position =
          masked-file_lsn crc w.disk.contents limit most f whole (omega (arith, ends, in_log)) in
        let length_of = whole-length crc w.disk.contents limit most f whole in
        let follow =
          IsWithin-Follow pages crc w.disk.contents limit most f.base (length f.objects) fs log
            (omega (arith, ends, in_log)) found.recovery_page_table is_found.table f.locations
            whole.within in
        let (table, recovers, at_table, keeps) =
          recover_locations-steps (file_lsn f) f.locations found.recovery_page_table whole.distinct
            follow in
        let recovers' : recover_locations m.lsn f.locations found.recovery_page_table ≡ ok table =
          ap (λ n. recover_locations n f.locations found.recovery_page_table) whole.lsn
          ∙ recovers in
        let located : DiskLocation.new_fam m.lsn ≡ ok (file_location f) =
          ap DiskLocation.new_fam whole.lsn
          ∙ new_fam_lem (file_lsn f) (omega arith) (omega (arith, ends, in_log)) in
        let below : All (λ k. k < (file_location f).word) (keys (maps.entries w.fams)) =
          rw at (keys-below w.disk.contents f.base fs log) in
        let absent : maps.get w.fams (file_location f) ≡ none =
          maps.get_lem w.fams (file_location f)
          ∙ lookup-latest (file_location f) (maps.entries w.fams) below in
        let fam = recovered_fam crates m (to_file_name m) f.file (file_location f) none in
        (
          record {
            max_file_lsn = max found.max_file_lsn (masked_lsn m.lsn);
            max_file_size = max found.max_file_size (length (w.disk.contents f.file));
            recovery_page_table = table;
          },
          maps.insert w.fams (file_location f) fam,
          rw
              (
                sync_calm w.disk calm,
                here,
                read_trailer-whole limit most f w calm room whole,
                recovers',
                file_len_calm f.file w.disk calm,
                located,
                absent,
              )
              refl,
          record {
            table = λ k.
                at_table k
                ∙ ap (newest (file_lsn f) (lookup k f.locations)) (is_found.table k)
                ∙ newest-from_raw pages (file_lsn f) (lookup k f.locations) (log_word pages fs k)
                    (omega arith);
            distinct = keeps is_found.distinct;
            log = (omega (arith, position, length_of, whole.file_size), whole, log);
            max_file_lsn = omega (arith, position, is_found.max_file_lsn, ends);
            max_file_size = omega (arith, length_of, whole.size, is_found.max_file_size);
          },
          maps.entries-insert w.fams (file_location f) fam
              ∙ place-latest (file_location f) fam (maps.entries w.fams) below
              ∙ ap (λ es. (file_location f, fam) ∷ es) at,
        )

    pub recover_files-listing :
        (next : ℕ) (fs : List LogFile) (w : World T M)
        → IsCalm w.disk
        → AllFound w.disk.names fs
        → next < 2 ^ 62
        → IsLog crc w.disk.contents limit most next fs
        → maps.entries w.fams ≡ []
        → (found : Found) × (fams' : M) × (recover_files crates
              (listing fs)
              (record { max_file_lsn = 0; max_file_size = 0; recovery_page_table = [] })
              w
            ≡ (ok found, record w { fams = fams' }))
          × IsFound w.disk.contents next fs found
          × (maps.entries fams' ≡ recovered crates fs)
    unfolding recover_files AllFound lookup log_word DiskLocation.from_raw
    recover_files-listing next [] w calm names in_log log at = (
      record { max_file_lsn = 0; max_file_size = 0; recovery_page_table = [] },
      w.fams,
      refl,
      record {
        table = λ k. refl;
        distinct = tt;
        log = omega arith;
        max_file_lsn = omega arith;
        max_file_size = omega arith;
      },
      at,
    )
    recover_files-listing next (f ∷ fs) w calm names in_log (ends, whole, log) at =
        let (found, fams, e, is_found, at1) =
          recover_files-listing f.base fs w calm names.1 (omega (arith, ends, in_log)) log at in
        let w1 = record w { fams = fams } in
        let (found', fams', e', is_found', at2) =
          recover_file_lem next f fs found w1 calm names.0 in_log (ends, whole, log) is_found at1 in
        (
          found',
          fams',
          recover_files-append (listing fs) ((f.metadata, to_file_name f.metadata) ∷ [])
                (record { max_file_lsn = 0; max_file_size = 0; recovery_page_table = [] }) w
              ∙ rw (e, e') refl,
          is_found',
          at2,
        )
