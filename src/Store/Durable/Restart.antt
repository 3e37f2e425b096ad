-- ===== src/Store/Durable/Restart.antt =====
-- `Config::open` (src/recovery.rs) on the disk that a store left behind gives the store back.
use marble.Prelude.{
  ℕ, ◌+◌, ◌^◌, ◌≤◌, ◌<◌, ◌≡◌, refl, ap, sym, subst, ◌∙◌, arith, Option, none, some, List, [], ◌∷◌,
  All, ok, ◌==◌, inl, inr, Bool-cases,
}
use mathlib.Core.Path.{fun_ext}
use marble.Prelude.Assoc.{Assoc, lookup, lookup-entries}
use marble.Prelude.Bytes.{Bytes}
use marble.Prelude.Counting.{count_below-none}
use marble.Config.{Config, validate}
use marble.Disk
use marble.DiskLocation
use marble.DiskLocation.{DiskLocation}
use marble.FileMap.Counts.{live_count, Counted}
use marble.FileMap.Homes.{Fams, keys, IsDescending, home, core_from}
use marble.FileMap.Moves.{AreSmall}
use marble.FileMap.Moves.OneId.{home_zero}
use marble.Recovery.Open.{fresh, open_config}
use marble.Store.{Objects, Shows, absent, deleted, stored, IsStore, top}
use marble.Store.After.{falls}
use marble.Store.Durable.{LogFile, file_location, IsLog, log_word, directory, recovered, IsDurable}
use marble.Store.Durable.Files.{keys-below, recover_files-listing}
use marble.Store.Durable.Found.{AllFound, directory-AllFound}
use marble.Store.Durable.Install.{IsCounted, Placeable, or_word, install_recovered-counts}
use marble.Store.Durable.Listing.{read_storage_directory-listing}
use marble.Store.Durable.Words.{log_word-lt, from_raw-some}
use marble.Store.Names.{not_tmp}
use marble.World.{Crates, World, add64}
use marble.WritePath.Batch.{tmp_file_name}

counts_small :
    (counts : ℕ → ℕ) (es : Fams)
    → Counted counts es
    → AreSmall es
    → All (λ k. counts k < 2 ^ 64) (keys es)
counts_small counts [] c s = tt
counts_small counts ((j, fam) ∷ es) c s = (omega (arith, c.0, s.0), counts_small counts es c.1 s.1)

small_counts :
    (counts : ℕ → ℕ) (es : Fams)
    → Counted counts es
    → All (λ k. counts k < 2 ^ 64) (keys es)
    → AreSmall es
small_counts counts [] c h = tt
small_counts counts ((j, fam) ∷ es) c h = (omega (arith, c.0, h.0), small_counts counts es c.1 h.1)

tmp-directory : (n : ℕ) (fs : List LogFile) → Disk.find_name (tmp_file_name n) (directory fs) ≡ none
unfolding Disk.find_name
tmp-directory n [] = refl
tmp-directory n (f ∷ fs) = rw (not_tmp n f.metadata) (tmp-directory n fs)

or_word-from_raw : (word old : ℕ) → old ≡ 0 → or_word (DiskLocation.from_raw word) old ≡ word
unfolding DiskLocation.from_raw
or_word-from_raw word old z = elim (Bool-cases (word == 0)) [
  | inl e ↦ rw e (ground (arith, e, z))
  | inr e ↦ rw e refl
]

module _ {T M : Type 0} (crates : Crates T M) where
  open crates use {pages, maps, crc, zstd}

  Shows-same :
      (contents : ℕ → Bytes) (es es' : Fams) (limit id word word' : ℕ) (object : Option Bytes)
      → keys es' ≡ keys es
      → ((k : ℕ) → core_from k es' ≡ core_from k es)
      → word' ≡ word
      → Shows crates contents es limit id word object
      → Shows crates contents es' limit id word' object
  Shows-same contents es es' limit id word word' object ke cores same (absent zero_word gone) =
      absent (same ∙ zero_word) gone
  Shows-same contents es es' limit id word word' object ke cores same (deleted lsn at here gone) =
      deleted lsn (same ∙ at) (rw (ke, same) here) gone
  Shows-same contents es es' limit id word word' object ke cores same
        (stored file base location dict front output raw back core here below based at holds fits
          dec there) =
      stored file base location dict front output raw back
        (cores word' ∙ ap (λ k. core_from k es) same ∙ core) (rw (ke, same) here) below based
        (same ∙ at) holds fits dec there

  recovered-Counted :
      (counts : ℕ → ℕ) (fs : List LogFile)
      → ((i : ℕ) → 0 < i → counts i ≡ 0)
      → Counted counts (recovered crates fs)
  recovered-Counted counts [] h = tt
  recovered-Counted counts (f ∷ fs) h =
      (sym (h (file_location f).word (omega arith)), recovered-Counted counts fs h)

  no_live_objects :
      (n : ℕ) (ks : List ℕ) (key : ℕ)
      → IsDescending ks
      → 0 < key
      → live_count n ks (pages.get pages.empty) key ≡ 0
  unfolding live_count
  no_live_objects n ks key d pos =
      count_below-none n (λ k. home ks (pages.get pages.empty k) == key)
        (λ k.
          ap (λ word. home ks word == key) (pages.get-empty k)
          ∙ ap (λ h. h == key) (home_zero ks d)
          ∙ ground arith)

  module _ (config : Config) (objects : Objects) (most : ℕ) (fs : List LogFile) (w : World T M)
      (s : IsStore crates objects w) (durable : IsDurable crates most fs w) where
    abbrev ks : List ℕ
    ks = keys (maps.entries w.fams)

    abbrev words : ℕ → ℕ
    words = pages.get w.location_table

    placeable :
        (table part : Assoc DiskLocation)
        → ((k : ℕ) → lookup k table ≡ DiskLocation.from_raw (log_word pages fs k))
        → All (λ (p : ℕ × DiskLocation). lookup p.0 table ≡ some p.1) part
        → Placeable crates ks s.descending words
            (counts_small _ (maps.entries w.fams) s.counted s.small)
            (top crates w)
            s.below
            (pages.get pages.empty)
            part
    placeable table [] at found = tt
    placeable table ((id, l) ∷ part) at found =
        let (here, pos) = from_raw-some (log_word pages fs id) l (sym (at id) ∙ found.0) in
        let same : words id ≡ l.word = durable.words id ∙ sym here in
        (
          (
            ground (arith, s.ids id, same, here, pos),
            falls_there id l same (omega (arith, here, pos)),
            pages.get-empty id,
            same,
          ),
          placeable table part at found.1,
        )
      where
        falls_there :
            (id : ℕ) (l : DiskLocation) → words id ≡ l.word → 0 < l.word → 0 < home ks l.word
        falls_there id l same pos = elim (falls crates objects w s id) [
          | inl z ↦ absurd (omega (arith, same, pos, z))
          | inr there ↦ rw⁻¹ same there
        ]

    -- The state after a restart.
    abbrev reopened : ℕ → T → M → ℕ → ℕ → World T M
    reopened tmp_counter t fams oid next = record (fresh crates tmp_counter w.disk) {
      location_table = t;
      fams = fams;
      max_object_id = oid;
      next_file_lsn = next;
    }

    module _ (room : most < 2 ^ 62) (tmp_counter : ℕ) (t : T) (fams : M) (oid next : ℕ)
        (log : IsLog crc w.disk.contents w.disk.next_inode most next fs)
        (counted : IsCounted crates ks s.descending words
          (counts_small _ (maps.entries w.fams) s.counted s.small)
          (top crates w)
          s.below
          (maps.entries fams)
          (pages.get t))
        (cores : (word : ℕ)
          → core_from word (maps.entries fams) ≡ core_from word (recovered crates fs))
        (at : (k : ℕ) → pages.get t k ≡ words k) where
      get_same : pages.get t ≡ words
      get_same = fun_ext at

      reopened-IsStore : IsStore crates objects (reopened tmp_counter t fams oid next)
      reopened-IsStore = record {
        calm = s.calm;
        descending = rw counted.keys s.descending;
        below =
            rw (counted.keys, durable.keys)
              (keys-below crates w.disk.next_inode most room w.disk.contents next fs log);
        counted = rw counted.keys counted.counted;
        small =
            small_counts (live_count (2 ^ 64) ks (pages.get t)) (maps.entries fams) counted.counted
              (rw (counted.keys, get_same)
                (counts_small _ (maps.entries w.fams) s.counted s.small));
        ids = λ k large. at k ∙ s.ids k large;
        words = λ k.
            rw (at k, durable.words k)
              (log_word-lt pages crc w.disk.contents w.disk.next_inode most next fs k log);
        shows = λ k.
            Shows-same w.disk.contents (maps.entries w.fams) (maps.entries fams) w.disk.next_inode k
              (words k) (pages.get t k) (objects k) counted.keys
              (λ word. cores word ∙ sym (durable.cores word)) (at k) (s.shows k);
        names = λ n le. rw durable.names (tmp-directory n fs);
      }

      reopened-IsDurable : IsDurable crates most fs (reopened tmp_counter t fams oid next)
      reopened-IsDurable = record {
        log = log;
        names = durable.names;
        keys = counted.keys ∙ durable.keys;
        cores = cores;
        words = λ k. at k ∙ durable.words k;
      }

    -- A restart of a store whose state agrees with its files, where no call of the system fails, the
    -- configuration is valid, and the log and the files are shorter than 2 ^ 62. `open` returns; the new
    -- state holds the map that the store held before, and agrees with the same files. The new log ends
    -- by at most the length of a file and 1 later. The counter of temporary names, which a new
    -- process starts at 0, is left as it is.
    pub open_config-IsStore :
        (tmp_counter : ℕ)
        → validate config ≡ ok tt
        → most < 2 ^ 62
        → w.next_file_lsn < 2 ^ 62
        → (w' : World T M) × (open_config crates config (record w { tmp_counter = tmp_counter })
            ≡ (ok tt, w'))
          × IsStore crates objects w'
          × IsDurable crates most fs w'
          × (w'.next_file_lsn ≤ w.next_file_lsn + most + 1)
          × (w'.tmp_counter ≡ tmp_counter)
    unfolding open_config
    open_config-IsStore tmp_counter valid room in_log =
        let w0 = fresh crates tmp_counter w.disk in
        let listed =
          read_storage_directory-listing crc w.disk.contents w.disk.next_inode most w.next_file_lsn
            fs w0 s.calm refl durable.names durable.log (omega arith) in
        let (found, fams, e1, is_found, at) =
          recover_files-listing crates w.disk.next_inode most room w.next_file_lsn fs w0 s.calm
            (subst (λ names. AllFound names fs) (sym durable.names)
              (directory-AllFound crc w.disk.contents w.disk.next_inode most w.next_file_lsn fs
                durable.log))
            in_log durable.log maps.entries-empty in
        let table = found.recovery_page_table in
        let empty_table = pages.get pages.empty in
        let nothing_counted : IsCounted crates ks s.descending words
            (counts_small _ (maps.entries w.fams) s.counted s.small) (top crates w) s.below
            (maps.entries fams) empty_table =
          record {
            keys = ap keys at ∙ sym durable.keys;
            counted = rw at (
                recovered-Counted (live_count (2 ^ 64) ks empty_table) fs
                  (λ i pos. no_live_objects (2 ^ 64) ks i s.descending pos));
            part = λ k. inl (pages.get-empty k);
          } in
        let (oid, t, fams', e2, counted, cores, at') =
          install_recovered-counts crates ks s.descending words
            (counts_small _ (maps.entries w.fams) s.counted s.small) (top crates w) s.below table
            (record w0 { fams = fams }) is_found.distinct
            (placeable table table is_found.table (lookup-entries table is_found.distinct))
            nothing_counted in
        let next = found.max_file_lsn + found.max_file_size + 1 in
        let sum : add64 (add64 found.max_file_lsn found.max_file_size) 1 ≡ next =
          omega (arith, is_found.max_file_lsn, is_found.max_file_size, room, in_log) in
        let cores' = λ (word : ℕ). cores word ∙ ap (core_from word) at in
        let same : (k : ℕ) → pages.get t k ≡ words k = λ k.
          at' k
          ∙ ap (λ o. or_word o (empty_table k)) (is_found.table k)
          ∙ or_word-from_raw (log_word pages fs k) (empty_table k) (pages.get-empty k)
          ∙ sym (durable.words k) in
        (
          reopened tmp_counter t fams' oid next,
          rw (valid, listed, e1, e2, sum) refl,
          reopened-IsStore room tmp_counter t fams' oid next is_found.log counted cores' same,
          reopened-IsDurable room tmp_counter t fams' oid next is_found.log counted cores' same,
          omega (arith, is_found.max_file_lsn, is_found.max_file_size),
          refl,
        )
