-- ===== src/Store/Claimed.antt =====
-- A claim on a file (src/file_map.rs) on a state that holds a map.
use marble.Prelude.{ℕ, ◌^◌, ◌≡◌, ◌≢◌, refl, sym, ap, ◌∙◌, Bool, Option, some}
use marble.Prelude.Bytes.{Bytes}
use marble.ConcurrentMap.{lookup}
use marble.DiskLocation.{DiskLocation}
use marble.FileMap.{set_fam}
use marble.FileMap.Claims.{
  replaced_at, place-known, keys-replaced_at, core_from-replaced_at, Counted-replaced_at,
  AreSmall-replaced_at, lookup-replaced_at, lookup-replaced_at_same,
}
use marble.FileMap.Counts.{live_count}
use marble.FileMap.Homes.{Fams, keys, core_from}
use marble.Store.{Objects, Shows, absent, deleted, stored, IsStore}
use marble.World.{FileAndMetadata, Crates, World}

module _ {T M : Type 0} (crates : Crates T M) where
  open crates use {pages, maps}

  Shows-same :
      (contents : ℕ → Bytes) (es es' : Fams) (limit id word : ℕ) (object : Option Bytes)
      → keys es' ≡ keys es
      → core_from word es' ≡ core_from word es
      → Shows crates contents es limit id word object
      → Shows crates contents es' limit id word object
  Shows-same contents es es' limit id word object ke ce (absent zero_word none_there) =
      absent zero_word none_there
  Shows-same contents es es' limit id word object ke ce (deleted lsn at falls none_there) =
      deleted lsn at (rw ke falls) none_there
  Shows-same contents es es' limit id word object ke ce
        (stored file base location dict front output raw back cored falls below based at holds fits
          dec there) =
      stored file base location dict front output raw back (ce ∙ cored) (rw ke falls) below based at
        holds fits dec there

  module _ (objects : Objects) (w : World T M) (l : DiskLocation) (fam : FileAndMetadata)
      (claim : Bool) (s : IsStore crates objects w) (found : maps.get w.fams l ≡ some fam) where
    abbrev pub claimed : FileAndMetadata
    claimed = record fam { rewrite_claim = claim }

    abbrev es : Fams
    es = maps.entries w.fams

    there : lookup l es ≡ some fam
    there = sym (maps.get_lem w.fams l) ∙ found

    entries-claimed : maps.entries (maps.insert w.fams l claimed) ≡ replaced_at l claimed es
    entries-claimed =
        maps.entries-insert w.fams l claimed ∙ place-known l claimed fam es s.descending there

    pub get-claimed : maps.get (maps.insert w.fams l claimed) l ≡ some claimed
    get-claimed =
        maps.get_lem (maps.insert w.fams l claimed) l
        ∙ ap (lookup l) entries-claimed
        ∙ lookup-replaced_at_same l claimed fam es there

    pub get-claimed_ne :
        (other : DiskLocation)
        → l.word ≢ other.word
        → maps.get (maps.insert w.fams l claimed) other ≡ maps.get w.fams other
    get-claimed_ne other ne =
        maps.get_lem (maps.insert w.fams l claimed) other
        ∙ ap (lookup other) entries-claimed
        ∙ lookup-replaced_at l other claimed es ne
        ∙ sym (maps.get_lem w.fams other)

    pub claimed-IsStore : IsStore crates objects (set_fam crates l claimed w)
    claimed-IsStore =
        let same_keys = keys-replaced_at l claimed fam refl refl es in
        record {
          calm = s.calm;
          descending = rw (entries-claimed, same_keys) s.descending;
          below = rw (entries-claimed, same_keys) s.below;
          counted =
              rw (entries-claimed, same_keys)
                (Counted-replaced_at l claimed fam refl refl
                  (live_count (2 ^ 64) (keys es) (pages.get w.location_table)) es there s.counted);
          small =
              rw entries-claimed (AreSmall-replaced_at l claimed fam refl refl es there s.small);
          ids = s.ids;
          words = s.words;
          shows = λ k. rw entries-claimed (
              Shows-same w.disk.contents es (replaced_at l claimed es) w.disk.next_inode k
                (pages.get w.location_table k) (objects k) same_keys
                (core_from-replaced_at l claimed fam refl refl (pages.get w.location_table k) es
                  there)
                (s.shows k));
          names = s.names;
        }
