-- ===== src/FileMap/Decrement.antt =====
-- `FileMap::decrement_evacuated_fams` (src/file_map.rs), where each replaced location falls into an
-- older file that has a live object left.
use marble.Prelude.{ℕ, ◌-◌, ◌^◌, ◌<◌, ◌≡◌, refl, ap, ◌∙◌, arith, false, some, [], ◌∷◌, ok, le→leb}
use marble.Prelude.Assoc.{Assoc}
use marble.ConcurrentMap.{place, first_from}
use marble.DiskLocation.{DiskLocation}
use marble.FileMap.{decrement_evacuated_fams, set_fam, sub64, same_location}
use marble.FileMap.Homes.{
  Fams, keys, IsDescending, decremented, keys-adjusted, place-adjusted, first_from-All, All-keys,
}
use marble.World.{FileAndMetadata, Crates, World}

-- The files after all replaced locations have been counted out.
unfoldable pub decremented_all : Assoc DiskLocation → Fams → Fams
decremented_all [] es = es
decremented_all ((id, old) ∷ olds) es = decremented_all olds (decremented old.word es)

-- Each location falls into a file that has a live object when its turn comes.
abbrev pub Removable : DiskLocation → Assoc DiskLocation → Fams → Type 0
Removable base [] es = Unit
Removable base ((id, old) ∷ olds) es =
    ((old.word < base.word)
      × ((p : DiskLocation × FileAndMetadata) × (first_from old es ≡ some p)
          × (0 < p.1.live_objects)
          × (p.1.live_objects < 2 ^ 64)))
    × Removable base olds (decremented old.word es)

sub64_one : (n : ℕ) → 0 < n → n < 2 ^ 64 → sub64 n 1 ≡ n - 1
sub64_one n p h = omega arith

first_from-older :
    (base l : DiskLocation) (new : FileAndMetadata) (es : Fams)
    → l.word < base.word
    → first_from l ((base, new) ∷ es) ≡ first_from l es
unfolding first_from
first_from-older base l new es h = ground arith

place-older :
    (base l : DiskLocation) (new fam : FileAndMetadata) (es : Fams)
    → l.word < base.word
    → place l fam ((base, new) ∷ es) ≡ (base, new) ∷ place l fam es
unfolding place
place-older base l new fam es h = ground arith

module _ {T M : Type 0} (crates : Crates T M) where
  open crates use {maps}

  pub decrement_evacuated_fams_lem :
      (base : DiskLocation) (new : FileAndMetadata) (olds : Assoc DiskLocation) (es : Fams)
      (w : World T M)
      → maps.entries w.fams ≡ (base, new) ∷ es
      → IsDescending (base.word ∷ keys es)
      → Removable base olds es
      → (fams' : M) × (decrement_evacuated_fams crates base olds w
          ≡ (ok tt, record w { fams = fams' }))
        × (maps.entries fams' ≡ (base, new) ∷ decremented_all olds es)
  unfolding decrement_evacuated_fams decremented_all
  decrement_evacuated_fams_lem base new [] es w at d r = (w.fams, refl, at)
  decrement_evacuated_fams_lem base new ((id, old) ∷ olds) es w at d
        ((older, (p, found, alive, small)), r) =
      let seeks : maps.seek w.fams old ≡ some p =
        maps.seek_lem w.fams old
        ∙ ap (first_from old) at
        ∙ first_from-older base old new es older
        ∙ found in
      let below : p.0.word < base.word =
        first_from-All (λ q. q.0.word < base.word) old es p (All-keys base.word es d.1) found in
      let fam' = record p.1 { live_objects = p.1.live_objects - 1 } in
      let w' = set_fam crates p.0 fam' w in
      let other : same_location p.0 base ≡ false = ground (arith, below) in
      let at' : maps.entries w'.fams ≡ (base, new) ∷ decremented old.word es =
        maps.entries-insert w.fams p.0 fam'
        ∙ ap (place p.0 fam') at
        ∙ place-older base p.0 new fam' es below
        ∙ ap (λ t. (base, new) ∷ t) (place-adjusted (λ n. n - 1) old es p d.2 found) in
      let (fams', e, at'') =
        decrement_evacuated_fams_lem base new olds (decremented old.word es) w' at'
          (rw (keys-adjusted (λ n. n - 1) old.word es) d) r in
      (
        fams',
        rw
            (
              decrement_evacuated_fams,
              seeks,
              other,
              sub64_one p.1.live_objects alive small,
              le→leb 1 p.1.live_objects alive,
            )
            e,
        at'',
      )
