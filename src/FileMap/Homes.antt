-- ===== src/FileMap/Homes.antt =====
-- The entries of the file map as a list with the latest file first: which file a location falls into,
-- and what changes of the records do (src/file_map.rs).
use marble.Prelude.{
  ℕ, ◌-◌, ◌<◌, ◌≡◌, refl, ap, arith, false, subst, Option, none, some, List, [], ◌∷◌, All, leb, ltb,
  ◌==◌, ==_refl, if◌then◌else◌, Bool-cases, inl, inr,
}
use marble.ConcurrentMap.{Entries, lookup, place, first_from}
use marble.DiskLocation.{DiskLocation}
use marble.Trailer.{ZstdDict}
use marble.World.{FileAndMetadata}

abbrev pub Fams : Type 0
Fams = Entries FileAndMetadata

-- The words of the files' locations.
abbrev pub keys : Fams → List ℕ
keys [] = []
keys ((location, fam) ∷ es) = location.word ∷ keys es

-- The latest files come first, and none is at 0.
abbrev pub IsDescending : List ℕ → Type 0
IsDescending [] = Unit
IsDescending (k ∷ ks) = (0 < k) × All (λ j. j < k) ks × IsDescending ks

-- The file that a word falls into, and 0 if there is none.
unfoldable pub home : List ℕ → ℕ → ℕ
home [] word = 0
home (k ∷ ks) word = if leb k word then k else home ks word

-- What `read` needs of a record.
abbrev pub core : FileAndMetadata → ℕ × DiskLocation × ZstdDict
core fam = (fam.file, fam.location, fam.zstd_dict)

unfoldable pub core_from : ℕ → Fams → Option (ℕ × DiskLocation × ZstdDict)
core_from word [] = none
core_from word ((location, fam) ∷ es) =
    if leb location.word word then some (core fam) else core_from word es

pub core_from-first_from :
    (l : DiskLocation) (es : Fams) (c : ℕ × DiskLocation × ZstdDict)
    → core_from l.word es ≡ some c
    → (p : DiskLocation × FileAndMetadata) × (first_from l es ≡ some p) × (core p.1 ≡ c)
unfolding core_from first_from
core_from-first_from l [] c e = cc
core_from-first_from l ((j, fam) ∷ es) c e = elim (Bool-cases (leb j.word l.word)) [
  | inl le ↦ ((j, fam), rw le refl, cc (rw le at e))
  | inr gt ↦ let (p, f, h) = core_from-first_from l es c (rw gt at e) in (p, rw gt f, h)
]

pub home-first_from :
    (l : DiskLocation) (es : Fams)
    → 0 < home (keys es) l.word
    → (p : DiskLocation × FileAndMetadata) × (first_from l es ≡ some p)
      × (p.0.word ≡ home (keys es) l.word)
unfolding home first_from
home-first_from l [] h = absurd (omega arith)
home-first_from l ((j, fam) ∷ es) h = elim (Bool-cases (leb j.word l.word)) [
  | inl le ↦ ((j, fam), rw le refl, rw le refl)
  | inr gt ↦ let (p, f, e) = home-first_from l es (rw gt at h) in (p, rw gt f, rw gt e)
]

pub first_from-All :
    (P : DiskLocation × FileAndMetadata → Type 0) (l : DiskLocation) (es : Fams)
    (p : DiskLocation × FileAndMetadata)
    → All P es
    → first_from l es ≡ some p
    → P p
unfolding first_from
first_from-All P l [] p all e = absurd (cc)
first_from-All P l ((j, fam) ∷ es) p all e = elim (Bool-cases (leb j.word l.word)) [
  | inl le ↦
      let same : ◌≡◌ {A = DiskLocation × FileAndMetadata} (j, fam) p = cc (rw le at e) in
      subst P same all.0
  | inr gt ↦ first_from-All P l es p all.1 (rw gt at e)
]

-- The file that a word falls into gets another number of live objects.
unfoldable pub adjusted : (ℕ → ℕ) → ℕ → Fams → Fams
adjusted g word [] = []
adjusted g word ((j, fam) ∷ es) =
    if leb j.word word
    then (j, record fam { live_objects = g fam.live_objects }) ∷ es
    else (j, fam) ∷ adjusted g word es

pub keys-adjusted : (g : ℕ → ℕ) (word : ℕ) (es : Fams) → keys (adjusted g word es) ≡ keys es
unfolding adjusted
keys-adjusted g word [] = refl
keys-adjusted g word ((j, fam) ∷ es) = elim (Bool-cases (leb j.word word)) [
  | inl le ↦ rw le refl
  | inr gt ↦ rw gt (ap (λ ks. j.word ∷ ks) (keys-adjusted g word es))
]

pub core_from-adjusted :
    (g : ℕ → ℕ) (w word : ℕ) (es : Fams) → core_from w (adjusted g word es) ≡ core_from w es
unfolding adjusted core_from
core_from-adjusted g w word [] = refl
core_from-adjusted g w word ((j, fam) ∷ es) = elim (Bool-cases (leb j.word word)) [
  | inl le ↦ rw le refl
  | inr gt ↦
      rw gt (ap (λ c. if leb j.word w then some (core fam) else c) (core_from-adjusted g w word es))
]

-- A record with one live object less, for the file that a word falls into.
abbrev pub decremented : ℕ → Fams → Fams
decremented = adjusted (λ n. n - 1)

pub All-keys :
    (bound : ℕ) (es : Fams)
    → All (λ k. k < bound) (keys es)
    → All (λ (p : DiskLocation × FileAndMetadata). p.0.word < bound) es
All-keys bound [] h = tt
All-keys bound ((j, fam) ∷ es) h = (h.0, All-keys bound es h.1)

-- The map with a record replaced that a word falls into.
pub place-adjusted :
    (g : ℕ → ℕ) (l : DiskLocation) (es : Fams) (p : DiskLocation × FileAndMetadata)
    → IsDescending (keys es)
    → first_from l es ≡ some p
    → place p.0 (record p.1 { live_objects = g p.1.live_objects }) es ≡ adjusted g l.word es
unfolding adjusted place first_from
place-adjusted g l [] p d e = absurd (cc)
place-adjusted g l ((j, fam) ∷ es) p d e = elim (Bool-cases (leb j.word l.word)) [
  | inl le ↦
      let same : ◌≡◌ {A = DiskLocation × FileAndMetadata} (j, fam) p = cc (rw le at e) in
      subst
        (λ q. place q.0 (record q.1 { live_objects = g q.1.live_objects }) ((j, fam) ∷ es) ≡ (
          if leb j.word l.word
          then (j, record fam { live_objects = g fam.live_objects }) ∷ es
          else (j, fam) ∷ adjusted g l.word es))
        same (rw (le, ==_refl j.word) refl)
  | inr gt ↦
      let before =
        first_from-All (λ q. q.0.word < j.word) l es p (All-keys j.word es d.1) (rw gt at e) in
      let not_here : (j.word == p.0.word) ≡ false = ground (arith, before) in
      let not_before : ltb j.word p.0.word ≡ false = ground (arith, before) in
      rw (gt, not_here, not_before)
        (ap (λ r. (j, fam) ∷ r) (place-adjusted g l es p d.2 (rw gt at e)))
]

-- A file that is later than all others goes to the front.
pub place-latest :
    (l : DiskLocation) (fam : FileAndMetadata) (es : Fams)
    → All (λ k. k < l.word) (keys es)
    → place l fam es ≡ (l, fam) ∷ es
unfolding place
place-latest l fam [] h = refl
place-latest l fam ((j, other) ∷ es) h = ground arith

pub lookup-latest :
    (l : DiskLocation) (es : Fams) → All (λ k. k < l.word) (keys es) → lookup l es ≡ none
unfolding lookup
lookup-latest l [] h = refl
lookup-latest l ((j, fam) ∷ es) h = ground (arith, lookup-latest l es h.1)
