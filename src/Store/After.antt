-- ===== src/Store/After.antt =====
-- The state after a user's batch holds the map with the batch's objects in it: the argument about the
-- state alone. What the code does to the state is in WritePath/Batch/Begin.antt and Installing.antt.
use marble.Prelude.{
  ℕ, ◌+◌, ◌*◌, ◌^◌, ◌≤◌, ◌<◌, ◌≡◌, refl, sym, ap, subst, ◌∙◌, arith, Option, none, some, List, [],
  ◌∷◌, ◌++◌, append_assoc, All, length, length-append, ok, Option-cases, ◌⊎◌, inl, inr,
}
use marble.Prelude.Assoc.{Assoc, lookup, Distinct}
use marble.Prelude.Bytes.{Bytes}
use marble.Disk
use marble.Disk.{unlink}
use marble.Disk.Calm.{IsCalm}
use marble.DiskLocation.{DiskLocation}
use marble.FileMap.Counts.{live_count, Counted}
use marble.FileMap.Decrement.{decremented_all, Removable}
use marble.FileMap.Homes.{Fams, keys, IsDescending, home}
use marble.FileMap.Latest.{batch_location}
use marble.FileMap.Moves.{Settled, moves, words_after}
use marble.FileMap.Moves.OneId.{home-latest}
use marble.ObjectRecord.{record_bytes}
use marble.ObjectRecord.Layout.{length-record_bytes}
use marble.RelativeDiskLocation.{RelativeDiskLocation}
use marble.Store.{Objects, Shows, absent, deleted, stored, IsStore, top}
use marble.Store.Moved.{Shows-older, core_from-latest}
use marble.Store.Table.{
  replaced-old_entries, words-installed, IsWithin, IsWithin-lookup, IsWithin-id,
  relative_locations-IsWithin, IsWithin-Newer, IsWithin-Movable, live_count-nothing,
  Counted-new_key,
}
use marble.Trailer.{Locations}
use marble.World.{FileAndMetadata, Crates, World}
use marble.WritePath.Batch.{tmp_file_name}
use marble.WritePath.Install.Exact.{Newer, installed_word, replaced}
use marble.WritePath.Layout.{file_bytes, relative_locations}
use marble.WritePath.Offsets.{
  relative_locations-Distinct, file_bytes-lookup, relative_locations-absent,
  relative_locations-deleted,
}
use marble.Zstd

-- The map with the batch's objects in it. A batch says some none of a deleted object.
abbrev pub or_before : Option (Option Bytes) → Option Bytes → Option Bytes
or_before none before = before
or_before (some object) before = object

abbrev pub updated : Assoc (Option Bytes) → Objects → Objects
updated batch objects k = or_before (lookup k batch) (objects k)

pub All-below : (a b : ℕ) (ks : List ℕ) → a ≤ b → All (λ k. k < a) ks → All (λ k. k < b) ks
All-below a b [] le h = tt
All-below a b (k ∷ ks) le h = (omega (arith, le, h.0), All-below a b ks le h.1)

module _ {T M : Type 0} (crates : Crates T M) (objects : Objects) (w : World T M)
    (s : IsStore crates objects w) where
  open crates use {pages, maps}

  -- A word that is not 0 falls into a file.
  pub falls :
      (k : ℕ)
      → (pages.get w.location_table k ≡ 0)
        ⊎ (0 < home (keys (maps.entries w.fams)) (pages.get w.location_table k))
  falls k = falls_by (s.shows k)
    where
      falls_by :
          Shows crates w.disk.contents
            (maps.entries w.fams)
            w.disk.next_inode
            k
            (pages.get w.location_table k)
            (objects k)
          → (pages.get w.location_table k ≡ 0)
            ⊎ (0 < home (keys (maps.entries w.fams)) (pages.get w.location_table k))
      falls_by (absent zero_word _) = inl zero_word
      falls_by (deleted _ _ at _) = inr at
      falls_by (stored _ _ _ _ _ _ _ _ _ at _ _ _ _ _ _ _) = inr at

module _ {T M : Type 0} (crates : Crates T M) (objects : Objects) (w : World T M)
    (s : IsStore crates objects w) (encode : Bytes → Bytes) (batch : Assoc (Option Bytes)) where
  open crates use {pages, maps, crc, zstd}

  abbrev pub lsn : ℕ
  lsn = w.next_file_lsn + 2 ^ 62

  abbrev base : DiskLocation
  base = batch_location w.next_file_lsn

  abbrev es : Fams
  es = maps.entries w.fams

  abbrev words : ℕ → ℕ
  words = pages.get w.location_table

  abbrev locations : Locations
  locations = relative_locations encode 0 batch

  abbrev bytes : Bytes
  bytes = file_bytes crc encode batch

  abbrev pub olds : Assoc DiskLocation
  olds = replaced pages lsn w.location_table locations

  pub base-IsDescending : IsDescending (base.word ∷ keys es)
  base-IsDescending = (omega arith, s.below, s.descending)

  module _ (distinct : Distinct batch) (ids : All (λ (p : ℕ × Option Bytes). p.0 < 2 ^ 64) batch)
      (room : w.next_file_lsn + length bytes + 1 < 2 ^ 62) where
    within : IsWithin (length bytes) locations
    within = relative_locations-IsWithin crc encode (length bytes) 0 batch ids (omega arith)

    pub locations-Newer : Newer pages lsn w.location_table locations
    locations-Newer =
        IsWithin-Newer pages lsn w.location_table (length bytes) locations s.words
          (omega (arith, room)) within

    -- The batch's ids move to the new file: no count goes below 0, and all stay true.
    moved :
        Settled base
          (keys es)
          (live_count (2 ^ 64) (base.word ∷ keys es) (words_after lsn locations words))
          es
          olds
        × (live_count (2 ^ 64) (base.word ∷ keys es) (words_after lsn locations words) base.word
            ≡ length locations)
    moved =
        let (st, total) =
          moves (2 ^ 64) base lsn (keys es) refl base-IsDescending locations words es refl
            (relative_locations-Distinct encode 0 batch distinct)
            (IsWithin-Movable pages lsn w.location_table (length bytes) (keys es) locations s.words
              (falls crates objects w s) within)
            (Counted-new_key (2 ^ 64) base.word (keys es) words es s.words s.counted) s.small in
        let none_before =
          live_count-nothing (2 ^ 64) base.word (keys es) words s.words base-IsDescending.0
            s.below in
        (
          rw (replaced-old_entries pages lsn w.location_table locations) st,
          omega (arith, total, none_before),
        )

    pub olds-Removable : Removable base olds es
    olds-Removable = moved.0.0

    settled :
        (t : T)
        → ((k : ℕ) → pages.get t k ≡ installed_word pages lsn (lookup k locations) (words k))
        → Settled base (keys es) (live_count (2 ^ 64) (base.word ∷ keys es) (pages.get t)) es olds
          × (live_count (2 ^ 64) (base.word ∷ keys es) (pages.get t) base.word ≡ length locations)
    settled t at =
        rw⁻¹
          (words-installed pages lsn w.location_table t locations
            (relative_locations-Distinct encode 0 batch distinct) at)
          moved

    module _ (w' : World T M) (fam : FileAndMetadata) (trailer : Bytes)
        (at : (k : ℕ)
          → pages.get w'.location_table k ≡ installed_word pages lsn (lookup k locations) (words k))
        (file : fam.file ≡ w.disk.next_inode) (location : fam.location ≡ base)
        (decodes : (id : ℕ) (raw : Bytes)
          → lookup id batch ≡ some (some raw)
          → Zstd.decompress zstd fam.zstd_dict (encode raw) ≡ ok raw)
        (new_contents : w'.disk.contents w.disk.next_inode ≡ bytes ++ trailer)
        (old_contents : (i : ℕ) → i < w.disk.next_inode → w'.disk.contents i ≡ w.disk.contents i)
        (inodes : w'.disk.next_inode ≡ w.disk.next_inode + 1) where
      abbrev es' : Fams
      es' = (base, fam) ∷ decremented_all olds es

      abbrev word' : ℕ → ℕ
      word' k = pages.get w'.location_table k

      word_of_id :
          (k : ℕ) (o : Option RelativeDiskLocation)
          → lookup k locations ≡ o
          → word' k ≡ installed_word pages lsn o (words k)
      word_of_id k o e = at k ∙ ap (λ x. installed_word pages lsn x (words k)) e

      new_falls : (k : ℕ) → base.word ≤ word' k → 0 < home (keys es') (word' k)
      new_falls k h =
          rw (home-latest base.word (word' k) (keys (decremented_all olds es)) h) (omega arith)

      shows_absent :
          (k : ℕ)
          → lookup k batch ≡ none
          → Shows crates w'.disk.contents es' w'.disk.next_inode k (word' k) (objects k)
      shows_absent k e =
          let here = word_of_id k none (relative_locations-absent encode batch k 0 e) in
          rw here (
            Shows-older crates w.disk.contents w'.disk.contents es w.disk.next_inode
              w'.disk.next_inode k (words k) (objects k) base fam olds
              (settled w'.location_table at).0.3 (omega (arith, inodes)) old_contents (s.words k)
              (s.shows k))

      shows_deleted :
          (k : ℕ)
          → lookup k batch ≡ some none
          → Shows crates w'.disk.contents es' w'.disk.next_inode k (word' k) none
      shows_deleted k e =
          let here = word_of_id k _ (relative_locations-deleted encode batch k 0 e) in
          deleted lsn here (new_falls k (omega (arith, here))) refl

      shows_stored :
          (k : ℕ) (raw : Bytes)
          → lookup k batch ≡ some (some raw)
          → Shows crates w'.disk.contents es' w'.disk.next_inode k (word' k) (some raw)
      shows_stored k raw e =
          let (front, back, f, l) = file_bytes-lookup crc encode batch k 0 raw e in
          let here : word' k ≡ (length front + lsn) * 2 = word_of_id k _ l ∙ omega arith in
          stored w.disk.next_inode lsn base fam.zstd_dict front (encode raw) raw (back ++ trailer)
            (core_from-latest (word' k) base fam (decremented_all olds es) (omega (arith, here))
              ∙ cc (file, location))
            (new_falls k (omega (arith, here))) (omega (arith, inodes)) refl here
            (new_contents
              ∙ ap (λ b. b ++ trailer) f
              ∙ append_assoc front (record_bytes crc k (encode raw) ++ back) trailer
              ∙ ap (λ b. front ++ b) (append_assoc (record_bytes crc k (encode raw)) back trailer))
            (omega (
              arith,
              room,
              ap length f,
              length-append {0} front (record_bytes crc k (encode raw) ++ back),
              length-append {0} (record_bytes crc k (encode raw)) back,
              length-record_bytes crc k (encode raw),
            ))
            (decodes k raw e) refl

      shows_all :
          (k : ℕ)
          → Shows crates w'.disk.contents es' w'.disk.next_inode k
              (word' k)
              (updated batch objects k)
      shows_all k = elim (Option-cases (lookup k batch)) [
        | inl e ↦ rw e (shows_absent k e)
        | inr (none, e) ↦ rw e (shows_deleted k e)
        | inr (some raw, e) ↦ rw e (shows_stored k raw e)
      ]

      word_bound : (k : ℕ) → word' k < (w.next_file_lsn + length bytes + 1 + 2 ^ 62) * 2
      word_bound k = elim (Option-cases (lookup k locations)) [
        | inl e ↦ omega (arith, word_of_id k none e, s.words k)
        | inr (r, e) ↦
            omega (
              arith,
              word_of_id k (some r) e,
              IsWithin-lookup (length bytes) k r locations within e,
            )
      ]

      pub after-IsStore :
          IsCalm w'.disk
          → w'.next_file_lsn ≡ w.next_file_lsn + length bytes + 1
          → w.tmp_counter < w'.tmp_counter
          → maps.entries w'.fams ≡ es'
          → fam.live_objects ≡ length locations
          → length locations < 2 ^ 64
          → ((n : ℕ) → w'.tmp_counter ≤ n → Disk.find_name (tmp_file_name n) w'.disk.names ≡ none)
          → IsStore crates (updated batch objects) w'
      after-IsStore calm next counter entries_at live few names =
          let (st, total) = settled w'.location_table at in
          record {
            calm = calm;
            descending = rw (entries_at, st.3) base-IsDescending;
            below =
                rw (entries_at, st.3)
                  (
                    omega (arith, next),
                    All-below base.word (top crates w') (keys es) (omega (arith, next)) s.below,
                  );
            counted = rw entries_at (
                subst
                  (λ ks.
                    Counted (live_count (2 ^ 64) (base.word ∷ ks) (pages.get w'.location_table))
                      es')
                  (sym st.3) (live ∙ sym total, st.1));
            small = rw entries_at (omega (arith, live, few), st.2);
            ids = λ k large.
                word_of_id k none (IsWithin-id (length bytes) k locations within large)
                ∙ s.ids k large;
            words = λ k. omega (arith, word_bound k, next);
            shows = λ k. rw entries_at (shows_all k);
            names = names;
          }
