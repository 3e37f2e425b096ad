-- ===== src/FileMap/Erase.antt =====
-- A file leaves the file map (src/file_map.rs): where locations fall that did not fall into it.
use marble.Prelude.{
  ℕ, ◌<◌, ◌≡◌, ◌≢◌, refl, sym, ap, ◌∙◌, arith, false, none, some, [], ◌∷◌, All, leb, ◌==◌, ==_iff,
  Bool-cases, inl, inr,
}
use marble.Prelude.Counting.{count_below-ext}
use marble.ConcurrentMap.{lookup, erase}
use marble.DiskLocation.{DiskLocation}
use marble.FileMap.Counts.{live_count, Counted}
use marble.FileMap.Homes.{Fams, keys, IsDescending, home, core_from, lookup-latest}
use marble.FileMap.Moves.{AreSmall}
use marble.World.{FileAndMetadata}

module _ (l : DiskLocation) where
  All-erase : (P : ℕ → Type 0) (es : Fams) → All P (keys es) → All P (keys (erase l es))
  unfolding erase
  All-erase P [] h = tt
  All-erase P ((j, fam) ∷ es) h = elim (Bool-cases (j.word == l.word)) [
    | inl e ↦ rw e h.1
    | inr e ↦ rw e (h.0, All-erase P es h.1)
  ]

  pub keys-erase_below :
      (bound : ℕ) (es : Fams)
      → All (λ k. k < bound) (keys es)
      → All (λ k. k < bound) (keys (erase l es))
  keys-erase_below bound es = All-erase (λ k. k < bound) es

  pub erase-IsDescending : (es : Fams) → IsDescending (keys es) → IsDescending (keys (erase l es))
  unfolding erase
  erase-IsDescending [] d = tt
  erase-IsDescending ((j, fam) ∷ es) d = elim (Bool-cases (j.word == l.word)) [
    | inl e ↦ rw e d.2
    | inr e ↦ rw e (d.0, All-erase (λ k. k < j.word) es d.1, erase-IsDescending es d.2)
  ]

  pub erase-AreSmall : (es : Fams) → AreSmall es → AreSmall (erase l es)
  unfolding erase
  erase-AreSmall [] h = tt
  erase-AreSmall ((j, fam) ∷ es) h = elim (Bool-cases (j.word == l.word)) [
    | inl e ↦ rw e h.1
    | inr e ↦ rw e (h.0, erase-AreSmall es h.1)
  ]

  pub home-erase :
      (es : Fams) (word : ℕ)
      → home (keys es) word ≢ l.word
      → home (keys (erase l es)) word ≡ home (keys es) word
  unfolding erase home
  home-erase [] word ne = refl
  home-erase ((j, fam) ∷ es) word ne = elim (Bool-cases (j.word == l.word)) [
    | inl e ↦ elim (Bool-cases (leb j.word word)) [
      | inl le ↦ absurd ((rw le at ne) ((==_iff j.word l.word).0 e))
      | inr gt ↦ rw (e, gt) refl
    ]
    | inr e ↦ elim (Bool-cases (leb j.word word)) [
      | inl le ↦ rw (e, le) refl
      | inr gt ↦ rw (e, gt) (home-erase es word (rw gt at ne))
    ]
  ]

  pub core_from-erase :
      (es : Fams) (word : ℕ)
      → home (keys es) word ≢ l.word
      → core_from word (erase l es) ≡ core_from word es
  unfolding erase home core_from
  core_from-erase [] word ne = refl
  core_from-erase ((j, fam) ∷ es) word ne = elim (Bool-cases (j.word == l.word)) [
    | inl e ↦ elim (Bool-cases (leb j.word word)) [
      | inl le ↦ absurd ((rw le at ne) ((==_iff j.word l.word).0 e))
      | inr gt ↦ rw (e, gt) refl
    ]
    | inr e ↦ elim (Bool-cases (leb j.word word)) [
      | inl le ↦ rw (e, le) refl
      | inr gt ↦ rw (e, gt) (core_from-erase es word (rw gt at ne))
    ]
  ]

  -- The counts stay, where no word falls into the file.
  pub live_count-erase :
      (n : ℕ) (es : Fams) (words : ℕ → ℕ) (key : ℕ)
      → ((k : ℕ) → home (keys es) (words k) ≢ l.word)
      → live_count n (keys (erase l es)) words key ≡ live_count n (keys es) words key
  unfolding live_count
  live_count-erase n es words key ne =
      count_below-ext n (λ k. home (keys (erase l es)) (words k) == key)
        (λ k. home (keys es) (words k) == key)
        (λ k lt. ap (λ h. h == key) (home-erase es (words k) (ne k)))

  pub Counted-erase :
      (counts counts' : ℕ → ℕ) (es : Fams)
      → ((i : ℕ) → counts' i ≡ counts i)
      → Counted counts es
      → Counted counts' (erase l es)
  unfolding erase
  Counted-erase counts counts' [] same c = tt
  Counted-erase counts counts' ((j, fam) ∷ es) same c = elim (Bool-cases (j.word == l.word)) [
    | inl e ↦ rw e (all_same es c.1)
    | inr e ↦ rw e (c.0 ∙ sym (same j.word), Counted-erase counts counts' es same c.1)
  ]
    where
      all_same : (rest : Fams) → Counted counts rest → Counted counts' rest
      all_same [] c = tt
      all_same ((i, f) ∷ rest) c = (c.0 ∙ sym (same i.word), all_same rest c.1)

  -- What is looked up is in the map.
  pub Counted-lookup :
      (counts : ℕ → ℕ) (es : Fams) (fam : FileAndMetadata)
      → IsDescending (keys es)
      → Counted counts es
      → lookup l es ≡ some fam
      → (fam.live_objects ≡ counts l.word) × (0 < l.word)
  unfolding lookup
  Counted-lookup counts [] fam d c e = absurd (cc)
  Counted-lookup counts ((j, other) ∷ es) fam d c e = elim (Bool-cases (j.word == l.word)) [
    | inl same ↦
        let eq : j.word ≡ l.word = (==_iff j.word l.word).0 same in
        let here : some other ≡ some fam = rw same at e in (cc (c.0, eq, here), rw⁻¹ eq d.0)
    | inr ne ↦ Counted-lookup counts es fam d.2 c.1 (rw ne at e)
  ]

pub lookup-erase :
    (l other : DiskLocation) (es : Fams)
    → l.word ≢ other.word
    → lookup other (erase l es) ≡ lookup other es
unfolding lookup erase
lookup-erase l other [] ne = refl
lookup-erase l other ((j, fam) ∷ es) ne = elim (Bool-cases (j.word == l.word)) [
  | inl e ↦
      let not_other : (j.word == other.word) ≡ false =
        ground (arith, (==_iff j.word l.word).0 e, ne) in
      rw (e, not_other) refl
  | inr e ↦ elim (Bool-cases (j.word == other.word)) [
    | inl same ↦ rw (e, same) refl
    | inr there ↦ rw (e, there) (lookup-erase l other es ne)
  ]
]

pub lookup-erase_same :
    (l : DiskLocation) (es : Fams) → IsDescending (keys es) → lookup l (erase l es) ≡ none
unfolding lookup erase
lookup-erase_same l [] d = refl
lookup-erase_same l ((j, fam) ∷ es) d = elim (Bool-cases (j.word == l.word)) [
  | inl e ↦ rw e (lookup-latest l es (rw⁻¹ ((==_iff j.word l.word).0 e) d.1))
  | inr e ↦ rw (e, e) (lookup-erase_same l es d.2)
]
