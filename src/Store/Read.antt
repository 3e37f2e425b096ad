-- ===== src/Store/Read.antt =====
-- `read` (src/readpath.rs) gives what the store holds.
use marble.Prelude.{
  ℕ, ◌+◌, ◌*◌, ◌^◌, ◌<◌, ◌≡◌, refl, sym, ap, subst, ◌∙◌, arith, true, false, Option, none, some,
  ◌++◌, length, ok,
}
use marble.Prelude.Bytes.{Bytes}
use marble.Disk.Calm.{IsCalm}
use marble.DiskLocation
use marble.DiskLocation.{DiskLocation}
use marble.DiskLocation.Laws.{parts}
use marble.FileMap
use marble.FileMap.Moves.OneId.{home_pos}
use marble.FileMap.Homes.{keys, IsDescending, core_from, core_from-first_from}
use marble.LocationTable
use marble.LocationTable.Races.{load_word}
use marble.ObjectRecord.{record_bytes}
use marble.ReadPath.{read_location, read}
use marble.ReadPath.Stored.{read_object-record_bytes}
use marble.Store.{Objects, Shows, absent, deleted, stored, IsStore}
use marble.Trailer.{ZstdDict}
use marble.World.{Crates, World, add64}
use marble.Zstd

module _ {T M : Type 0} (crates : Crates T M) (w : World T M) where
  open crates use {pages, maps, crc, zstd}

  load_zero :
      (k : ℕ)
      → pages.get w.location_table k ≡ 0
      → LocationTable.load pages w.location_table k ≡ none
  unfolding LocationTable.load DiskLocation.from_raw
  load_zero k e = rw e refl

  -- The outcome of a read that changes nothing but its two counters.
  abbrev pub Reads : ℕ → Option Bytes → Type 0
  Reads k object =
      (compressed decompressed : ℕ) × (read crates k w ≡ (
        ok object,
        record w { compressed_bytes_read = compressed; decompressed_bytes_read = decompressed },
      ))

  read_stored :
      (k : ℕ) (l location : DiskLocation) (base file : ℕ) (dict : ZstdDict)
      (front output raw back : Bytes)
      → IsCalm w.disk
      → LocationTable.load pages w.location_table k ≡ some l
      → core_from l.word (maps.entries w.fams) ≡ some (file, location, dict)
      → location.word ≡ base * 2
      → l.word ≡ (length front + base) * 2
      → l.word < 2 ^ 64
      → w.disk.contents file ≡ front ++ (record_bytes crc k output ++ back)
      → length output < 2 ^ 63
      → Zstd.decompress zstd dict output ≡ ok raw
      → k < 2 ^ 64
      → Reads k (some raw)
  unfolding read read_location FileMap.fam_for_location
  read_stored k l location base file dict front output raw back calm loads falls based at wide holds
        fits dec id_fits =
      let (p, found, same) =
        core_from-first_from l (maps.entries w.fams) (file, location, dict) falls in
      let seeks : maps.seek w.fams l ≡ some p = maps.seek_lem w.fams l ∙ found in
      let (lsn_l, not_delete) = parts (length front + base) false l at in
      let same_file : p.1.file ≡ file = ap (λ c. c.0) same in
      let same_location : p.1.location ≡ location = ap (λ c. c.1) same in
      let same_dict : p.1.zstd_dict ≡ dict = ap (λ c. c.2) same in
      let base_of : DiskLocation.lsn p.1.location ≡ base =
        (parts base false p.1.location (ap (λ x. x.word) same_location ∙ based)).0 in
      let offset : FileMap.sub64 (length front + base) base ≡ length front = omega arith in
      let reads =
        read_object-record_bytes crates k p.1 w front output raw back calm
          (ap w.disk.contents same_file ∙ holds)
          (ap (λ d. Zstd.decompress zstd d output) same_dict ∙ dec) id_fits fits (omega arith) in
      (
        add64 w.compressed_bytes_read (length output),
        add64 w.decompressed_bytes_read (length raw),
        rw (loads, read_location, not_delete, seeks, lsn_l, base_of, offset, reads) refl,
      )

  read_shows :
      (k : ℕ) (object : Option Bytes)
      → IsCalm w.disk
      → IsDescending (keys (maps.entries w.fams))
      → k < 2 ^ 64
      → pages.get w.location_table k < 2 ^ 64
      → Shows crates w.disk.contents
          (maps.entries w.fams)
          w.disk.next_inode
          k
          (pages.get w.location_table k)
          object
      → Reads k object
  unfolding read read_location
  read_shows k object calm d id_fits wide (absent zero_word none_there) = (
    w.compressed_bytes_read,
    w.decompressed_bytes_read,
    rw (load_zero k zero_word) (ap (λ o. (ok o, w)) (sym none_there)),
  )
  read_shows k object calm d id_fits wide (deleted lsn at falls none_there) =
      let l : DiskLocation = record { word = pages.get w.location_table k } in
      let is_delete = (parts lsn true l at).1 in
      (
        w.compressed_bytes_read,
        w.decompressed_bytes_read,
        rw (load_word pages w.location_table k l refl (omega arith), read_location, is_delete)
            (ap (λ o. (ok o, w)) (sym none_there)),
      )
  read_shows k object calm d id_fits wide
        (stored file base location dict front output raw back core falls limit based at holds fits
          dec there) =
      let l : DiskLocation = record { word = pages.get w.location_table k } in
      subst (Reads k) (sym there) (
        read_stored k l location base file dict front output raw back calm
          (load_word pages w.location_table k l refl
            (home_pos (keys (maps.entries w.fams)) l.word d falls))
          core based at wide holds fits dec id_fits)

  -- In a state that holds a map from ids to objects, `read` of any id of 64 bits returns what the
  -- map has, and changes nothing but two counters, while the log is shorter than 2 ^ 62.
  pub read-IsStore :
      (objects : Objects) (k : ℕ)
      → IsStore crates objects w
      → k < 2 ^ 64
      → w.next_file_lsn < 2 ^ 62
      → Reads k (objects k)
  read-IsStore objects k s id_fits room =
      read_shows k (objects k) s.calm s.descending id_fits (omega (arith, s.words k)) (s.shows k)
