-- ===== src/FileMap/Claims.antt =====
-- A claim on a file changes its record (src/file_map.rs), and nothing that reads and counts look at.
use marble.Prelude.{
  ℕ, ◌<◌, ◌≡◌, ◌≢◌, refl, sym, ap, ◌∙◌, arith, false, some, [], ◌∷◌, All, leb, ltb, ◌==◌, ==_refl,
  ==_iff, if◌then◌else◌, Bool-cases, inl, inr,
}
use marble.ConcurrentMap.{lookup, place}
use marble.DiskLocation.{DiskLocation}
use marble.FileMap.Counts.{Counted}
use marble.FileMap.Homes.{Fams, keys, IsDescending, core, core_from}
use marble.FileMap.Moves.{AreSmall}
use marble.World.{FileAndMetadata}

-- The map with another record in a file's place.
pub replaced_at : DiskLocation → FileAndMetadata → Fams → Fams
replaced_at l new [] = []
replaced_at l new ((j, fam) ∷ es) =
    if j.word == l.word then (l, new) ∷ es else (j, fam) ∷ replaced_at l new es

lookup_below :
    (l : DiskLocation) (bound : ℕ) (es : Fams) (fam : FileAndMetadata)
    → All (λ k. k < bound) (keys es)
    → lookup l es ≡ some fam
    → l.word < bound
unfolding lookup
lookup_below l bound [] fam h e = absurd (cc)
lookup_below l bound ((j, other) ∷ es) fam h e = elim (Bool-cases (j.word == l.word)) [
  | inl same ↦ rw⁻¹ ((==_iff j.word l.word).0 same) h.0
  | inr ne ↦ lookup_below l bound es fam h.1 (rw ne at e)
]

pub place-known :
    (l : DiskLocation) (new fam : FileAndMetadata) (es : Fams)
    → IsDescending (keys es)
    → lookup l es ≡ some fam
    → place l new es ≡ replaced_at l new es
unfolding lookup place replaced_at
place-known l new fam [] d e = absurd (cc)
place-known l new fam ((j, other) ∷ es) d e = elim (Bool-cases (j.word == l.word)) [
  | inl same ↦ rw same refl
  | inr ne ↦
      let later = lookup_below l j.word es fam d.1 (rw ne at e) in
      let not_before : ltb j.word l.word ≡ false = ground (arith, later) in
      rw (ne, not_before) (ap (λ r. (j, other) ∷ r) (place-known l new fam es d.2 (rw ne at e)))
]

module _ (l : DiskLocation) (new fam : FileAndMetadata) (same_core : core new ≡ core fam)
    (same_count : new.live_objects ≡ fam.live_objects) where
  pub keys-replaced_at : (es : Fams) → keys (replaced_at l new es) ≡ keys es
  unfolding replaced_at
  keys-replaced_at [] = refl
  keys-replaced_at ((j, other) ∷ es) = elim (Bool-cases (j.word == l.word)) [
    | inl same ↦ rw same (ap (λ k. k ∷ keys es) (sym ((==_iff j.word l.word).0 same)))
    | inr ne ↦ rw ne (ap (λ ks. j.word ∷ ks) (keys-replaced_at es))
  ]

  pub core_from-replaced_at :
      (word : ℕ) (es : Fams)
      → lookup l es ≡ some fam
      → core_from word (replaced_at l new es) ≡ core_from word es
  unfolding replaced_at core_from lookup
  core_from-replaced_at word [] e = refl
  core_from-replaced_at word ((j, other) ∷ es) e = elim (Bool-cases (j.word == l.word)) [
    | inl same ↦
        let eq : j.word ≡ l.word = (==_iff j.word l.word).0 same in
        let here : some other ≡ some fam = rw same at e in
        let cores : core new ≡ core other = cc in
        rw same (
          ap (λ c. if leb l.word word then some c else core_from word es) cores
          ∙ ap (λ k. if leb k word then some (core other) else core_from word es) (sym eq))
    | inr ne ↦ rw ne (
        ap (λ c. if leb j.word word then some (core other) else c)
          (core_from-replaced_at word es (rw ne at e)))
  ]

  pub Counted-replaced_at :
      (counts : ℕ → ℕ) (es : Fams)
      → lookup l es ≡ some fam
      → Counted counts es
      → Counted counts (replaced_at l new es)
  unfolding replaced_at lookup
  Counted-replaced_at counts [] e c = tt
  Counted-replaced_at counts ((j, other) ∷ es) e c = elim (Bool-cases (j.word == l.word)) [
    | inl same ↦
        let eq : j.word ≡ l.word = (==_iff j.word l.word).0 same in
        let here : some other ≡ some fam = rw same at e in
        let count : new.live_objects ≡ counts l.word = cc (c.0) in rw same (count, c.1)
    | inr ne ↦ rw ne (c.0, Counted-replaced_at counts es (rw ne at e) c.1)
  ]

  pub AreSmall-replaced_at :
      (es : Fams) → lookup l es ≡ some fam → AreSmall es → AreSmall (replaced_at l new es)
  unfolding replaced_at lookup
  AreSmall-replaced_at [] e h = tt
  AreSmall-replaced_at ((j, other) ∷ es) e h = elim (Bool-cases (j.word == l.word)) [
    | inl same ↦
        let here : some other ≡ some fam = rw same at e in
        let count : other.live_objects ≡ new.live_objects = cc in
        rw same (omega (arith, count, h.0), h.1)
    | inr ne ↦ rw ne (h.0, AreSmall-replaced_at es (rw ne at e) h.1)
  ]

pub lookup-replaced_at :
    (l other : DiskLocation) (new : FileAndMetadata) (es : Fams)
    → l.word ≢ other.word
    → lookup other (replaced_at l new es) ≡ lookup other es
unfolding replaced_at lookup
lookup-replaced_at l other new [] ne = refl
lookup-replaced_at l other new ((j, fam) ∷ es) ne = elim (Bool-cases (j.word == l.word)) [
  | inl e ↦
      let not_other : (j.word == other.word) ≡ false =
        ground (arith, (==_iff j.word l.word).0 e, ne) in
      let not_it : (l.word == other.word) ≡ false = ground (arith, ne) in
      rw (e, not_other, not_it) refl
  | inr e ↦ elim (Bool-cases (j.word == other.word)) [
    | inl same ↦ rw (e, same) refl
    | inr there ↦ rw (e, there) (lookup-replaced_at l other new es ne)
  ]
]

pub lookup-replaced_at_same :
    (l : DiskLocation) (new fam : FileAndMetadata) (es : Fams)
    → lookup l es ≡ some fam
    → lookup l (replaced_at l new es) ≡ some new
unfolding replaced_at lookup
lookup-replaced_at_same l new fam [] e = absurd (cc)
lookup-replaced_at_same l new fam ((j, other) ∷ es) e = elim (Bool-cases (j.word == l.word)) [
  | inl same ↦ rw (same, ==_refl l.word) refl
  | inr ne ↦ rw (ne, ne) (lookup-replaced_at_same l new fam es (rw ne at e))
]
