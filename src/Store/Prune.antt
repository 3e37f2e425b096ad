-- ===== src/Store/Prune.antt =====
-- The second loop of `prune_empty_files` (src/file_map.rs) on a state that holds a map.
use marble.Prelude.{
  ℕ, ◌^◌, ◌≤◌, ◌<◌, ◌≡◌, ◌≢◌, refl, sym, ap, ◌∙◌, arith, Option, none, some, List, [], ◌∷◌, All, ok,
  ltb, ◌==◌, ==_refl, Bool-cases, Option-cases, inl, inr,
}
use marble.Prelude.Bytes.{Bytes}
use marble.Prelude.Counting.{count_below-pos}
use marble.ConcurrentMap.{lookup, erase}
use marble.Disk
use marble.Disk.{Disk, unlink}
use marble.Disk.Calm.{remove_file_found, remove_file_missing}
use marble.DiskLocation.{DiskLocation}
use marble.Exec.{Exec, ◌>>=◌, bind_assoc}
use marble.FileMap.{take_fam, drop_fam}
use marble.FileMap.Counts.{live_count}
use marble.FileMap.Erase.{
  keys-erase_below, erase-IsDescending, erase-AreSmall, home-erase, core_from-erase,
  live_count-erase, Counted-erase, Counted-lookup, lookup-erase, lookup-erase_same,
}
use marble.FileMap.Homes.{Fams, keys, home}
use marble.FileMap.Moves.OneId.{home_zero}
use marble.FileMap.Prune.{remove_fams}
use marble.Store.{Objects, Shows, absent, deleted, stored, IsStore, top}
use marble.Store.Names.{find_name-unlink}
use marble.World.{FileAndMetadata, Crates, World}
use marble.WritePath.Batch.{tmp_file_name}

module _ {T M : Type 0} (crates : Crates T M) (l : DiskLocation) where
  open crates use {pages, maps}

  -- `take_fam` and `drop_fam`, as the loop has them.
  abbrev drop_round : Exec (World T M) (Unit {0})
  drop_round = take_fam crates l >>= λ fam. drop_fam crates fam

  Shows-erase :
      (contents : ℕ → Bytes) (es : Fams) (limit id word : ℕ) (object : Option Bytes)
      → home (keys es) word ≢ l.word
      → Shows crates contents es limit id word object
      → Shows crates contents (erase l es) limit id word object
  Shows-erase contents es limit id word object ne (absent zero_word none_there) =
      absent zero_word none_there
  Shows-erase contents es limit id word object ne (deleted lsn at falls none_there) =
      deleted lsn at (rw (home-erase l es word ne) falls) none_there
  Shows-erase contents es limit id word object ne
        (stored file base location dict front output raw back core falls below based at holds fits
          dec there) =
      stored file base location dict front output raw back (core_from-erase l es word ne ∙ core)
        (rw (home-erase l es word ne) falls) below based at holds fits dec there

  module _ (objects : Objects) (w : World T M) (fam : FileAndMetadata)
      (s : IsStore crates objects w) (found : maps.get w.fams l ≡ some fam)
      (empty : fam.live_objects ≡ 0) where
    abbrev es : Fams
    es = maps.entries w.fams

    -- No id's location falls into a file without live objects.
    nothing_there : (k : ℕ) → home (keys es) (pages.get w.location_table k) ≢ l.word
    unfolding live_count
    nothing_there k here =
        let (count, p) =
          Counted-lookup l (live_count (2 ^ 64) (keys es) (pages.get w.location_table)) es fam
            s.descending s.counted (sym (maps.get_lem w.fams l) ∙ found) in
        elim (Bool-cases (ltb k (2 ^ 64))) [
          | inl lt ↦ omega (arith, positive k (ground (arith, lt)) here, count, empty)
          | inr ge ↦
              let no_word = s.ids k (ground (arith, ge)) in
              let none_zero : home (keys es) (pages.get w.location_table k) ≡ 0 =
                ap (home (keys es)) no_word ∙ home_zero (keys es) s.descending in
              omega (arith, none_zero, here, p)
        ]
      where
        positive :
            (k : ℕ)
            → k < 2 ^ 64
            → home (keys es) (pages.get w.location_table k) ≡ l.word
            → 0 < live_count (2 ^ 64) (keys es) (pages.get w.location_table) l.word
        positive k lt here =
            count_below-pos (2 ^ 64) k
              (λ j. home (keys es) (pages.get w.location_table j) == l.word) lt
              (rw here (==_refl l.word))

    -- The state without the file, with some names gone from the directory.
    without-IsStore :
        (names : List (Bytes × ℕ))
        → ((n : ℕ) → w.tmp_counter ≤ n → Disk.find_name (tmp_file_name n) names ≡ none)
        → IsStore crates objects
            (record w { fams = maps.remove w.fams l; disk = record w.disk { names = names } })
    without-IsStore names free =
        let gone = maps.entries-remove w.fams l in
        record {
          calm = s.calm;
          descending = rw gone (erase-IsDescending l es s.descending);
          below = rw gone (keys-erase_below l (top crates w) es s.below);
          counted = rw gone (
              Counted-erase l (live_count (2 ^ 64) (keys es) (pages.get w.location_table))
                (live_count (2 ^ 64) (keys (erase l es)) (pages.get w.location_table)) es
                (λ i. live_count-erase l (2 ^ 64) es (pages.get w.location_table) i nothing_there)
                s.counted);
          small = rw gone (erase-AreSmall l es s.small);
          ids = s.ids;
          words = s.words;
          shows = λ k. rw gone (
              Shows-erase w.disk.contents es w.disk.next_inode k (pages.get w.location_table k)
                (objects k) (nothing_there k) (s.shows k));
          names = free;
        }

    -- One round of the loop: the file leaves the map and the directory.
    round :
        (path : Bytes)
        → fam.path ≡ some path
        → (w' : World T M) × (drop_round w ≡ (ok tt, w'))
          × IsStore crates objects w'
          × (maps.get w'.fams l ≡ none)
          × ((other : DiskLocation)
              → l.word ≢ other.word
              → maps.get w'.fams other ≡ maps.get w.fams other)
    unfolding take_fam drop_fam
    round path named = elim (Option-cases (Disk.find_name path w.disk.names)) [
      | inl e ↦ (
        _,
        rw (found, empty, named, remove_file_missing path w.disk s.calm e) refl,
        without-IsStore w.disk.names s.names,
        gone,
        others,
      )
      | inr (inode, e) ↦ (
        _,
        rw (found, empty, named, remove_file_found path inode w.disk s.calm e) refl,
        without-IsStore (unlink path w.disk.names)
            (λ n le. find_name-unlink (tmp_file_name n) path w.disk.names (s.names n le)),
        gone,
        others,
      )
    ]
      where
        gone : maps.get (maps.remove w.fams l) l ≡ none
        gone =
            maps.get_lem (maps.remove w.fams l) l
            ∙ ap (lookup l) (maps.entries-remove w.fams l)
            ∙ lookup-erase_same l es s.descending

        others :
            (other : DiskLocation)
            → l.word ≢ other.word
            → maps.get (maps.remove w.fams l) other ≡ maps.get w.fams other
        others other ne =
            maps.get_lem (maps.remove w.fams l) other
            ∙ ap (lookup other) (maps.entries-remove w.fams l)
            ∙ lookup-erase l other es ne
            ∙ sym (maps.get_lem w.fams other)

-- All locations are different.
abbrev pub AreDistinct : List DiskLocation → Type 0
AreDistinct [] = Unit
AreDistinct (l ∷ ls) = All (λ (other : DiskLocation). l.word ≢ other.word) ls × AreDistinct ls

module _ {T M : Type 0} (crates : Crates T M) where
  open crates use {maps}

  -- Each file is in the map, has no live object, and has its name.
  abbrev pub ArePrunable : World T M → List DiskLocation → Type 0
  ArePrunable w = All λ (l : DiskLocation).
      (fam : FileAndMetadata) × (maps.get w.fams l ≡ some fam)
      × (fam.live_objects ≡ 0)
      × (path : Bytes) × (fam.path ≡ some path)

  pub still_ArePrunable :
      (l : DiskLocation) (w w' : World T M) (ls : List DiskLocation)
      → ((other : DiskLocation)
          → l.word ≢ other.word
          → maps.get w'.fams other ≡ maps.get w.fams other)
      → All (λ (other : DiskLocation). l.word ≢ other.word) ls
      → ArePrunable w ls
      → ArePrunable w' ls
  still_ArePrunable l w w' [] same ne p = tt
  still_ArePrunable l w w' (other ∷ ls) same ne ((fam, found, empty, path, named), p) =
      ((fam, same other ne.0 ∙ found, empty, path, named), still_ArePrunable l w w' ls same ne.1 p)

  distinct_symmetric :
      (l : DiskLocation) (ls : List DiskLocation)
      → All (λ (other : DiskLocation). l.word ≢ other.word) ls
      → All (λ (other : DiskLocation). other.word ≢ l.word) ls
  distinct_symmetric l [] h = tt
  distinct_symmetric l (other ∷ ls) h = ((λ e. h.0 (sym e)), distinct_symmetric l ls h.1)

  -- The second loop of `prune_empty_files`.
  pub remove_fams_lem :
      (objects : Objects) (locations : List DiskLocation) (w : World T M)
      → IsStore crates objects w
      → AreDistinct locations
      → ArePrunable w locations
      → (w' : World T M) × (remove_fams crates locations w ≡ (ok tt, w'))
        × IsStore crates objects w'
        × All (λ (l : DiskLocation). maps.get w'.fams l ≡ none) locations
        × ((other : DiskLocation)
            → All (λ (l : DiskLocation). l.word ≢ other.word) locations
            → maps.get w'.fams other ≡ maps.get w.fams other)
  unfolding remove_fams
  remove_fams_lem objects [] w s d p = (w, refl, s, tt, λ other ne. refl)
  remove_fams_lem objects (l ∷ ls) w s d ((fam, found, empty, path, named), p) =
      let (w1, e1, s1, gone, same) = round crates l objects w fam s found empty path named in
      let (w2, e2, s2, gone2, same2) =
        remove_fams_lem objects ls w1 s1 d.1 (still_ArePrunable l w w1 ls same d.0 p) in
      (
        w2,
        bind_assoc (drop_fam crates) (λ u. remove_fams crates ls) (take_fam crates l) w ∙ rw e1 e2,
        s2,
        (same2 l (distinct_symmetric l ls d.0) ∙ gone, gone2),
        λ other ne. same2 other ne.1 ∙ same other ne.0,
      )
