-- ===== src/Store/Durable/Install.antt =====
-- The loop of `open` over the page table (src/recovery.rs): it counts the live objects of each file and
-- fills the location table.
use marble.Prelude.{
  ℕ, ◌+◌, ◌^◌, ◌≤◌, ◌<◌, ◌≡◌, ◌≢◌, refl, ap, sym, subst, ◌∙◌, arith, Bool, true, false, Option,
  none, some, List, [], ◌∷◌, All, ok, max, ◌==◌, leb, ==_refl, ==_iff, if◌then◌else◌, ◌⊎◌, inl, inr,
  Bool-cases,
}
use mathlib.Core.Path.{fun_ext}
use marble.Prelude.Assoc.{Assoc, lookup, Distinct, Fresh, lookup-Fresh}
use marble.Prelude.Counting.{count_below, count_below-change, count_below_mono, bit}
use marble.DiskLocation
use marble.DiskLocation.{DiskLocation}
use marble.FileMap.Counts.{live_count, Counted, Counted-adjusted, AllKeys-keys}
use marble.FileMap.Homes.{
  Fams, keys, IsDescending, home, home-first_from, adjusted, keys-adjusted, core_from,
  core_from-adjusted, place-adjusted,
}
use marble.FileMap.Moves.OneId.{set_word, home_zero}
use marble.LocationTable
use marble.Recovery.Open.{install_recovered}
use marble.World.{Crates, World, add64}

-- One id more in the file that its new word falls into.
live_count-placed :
    (n : ℕ) (ks : List ℕ) (words : ℕ → ℕ) (id new key : ℕ)
    → IsDescending ks
    → id < n
    → words id ≡ 0
    → 0 < key
    → live_count n ks (set_word id new words) key
      ≡ (if key == home ks new then live_count n ks words key + 1 else live_count n ks words key)
unfolding live_count
live_count-placed n ks words id new key d in_bound unplaced pos = ground (arith, change)
  where
    test : (ℕ → ℕ) → ℕ → Bool
    test f k = home ks (f k) == key

    same : (k : ℕ) → k ≢ id → test words k ≡ test (set_word id new words) k
    same k ne = let other : (id == k) ≡ false = ground (arith, ne) in rw other refl

    now : home ks (set_word id new words id) ≡ home ks new
    now = rw (==_refl id) refl

    before : home ks (words id) ≡ 0
    before = ap (home ks) unplaced ∙ home_zero ks d

    change :
        count_below n (test (set_word id new words)) + bit (0 == key)
        ≡ count_below n (test words) + bit (home ks new == key)
    change =
        ap (λ h. count_below n (test (set_word id new words)) + bit (h == key)) (sym before)
        ∙ count_below-change n id (test words) (test (set_word id new words)) in_bound same
        ∙ ap (λ h. count_below n (test words) + bit (h == key)) now

-- A table that is not filled yet counts no more than the full one.
live_count-part :
    (n : ℕ) (ks : List ℕ) (words full : ℕ → ℕ) (key : ℕ)
    → IsDescending ks
    → ((k : ℕ) → (words k ≡ 0) ⊎ (words k ≡ full k))
    → 0 < key
    → live_count n ks words key ≤ live_count n ks full key
unfolding live_count
live_count-part n ks words full key d part pos =
    count_below_mono n (λ k. home ks (words k) == key) (λ k. home ks (full k) == key) keeps
  where
    keeps : (k : ℕ) → (home ks (words k) == key) ≡ true → (home ks (full k) == key) ≡ true
    keeps k e = elim (part k) [
      | inl z ↦ absurd (ground (arith, home_zero ks d, z, e))
      | inr same ↦ ap (λ word. home ks word == key) (sym same) ∙ e
    ]

home-All :
    (P : ℕ → Type 0) (ks : List ℕ) (word : ℕ) → All P ks → 0 < home ks word → P (home ks word)
unfolding home
home-All P [] word all pos = absurd (omega arith)
home-All P (k ∷ ks) word all pos = elim (Bool-cases (leb k word)) [
  | inl e ↦ rw e all.0
  | inr e ↦ rw e (home-All P ks word all.1 (rw e at pos))
]

-- What the table says of an id, or else the word it has.
abbrev pub or_word : Option DiskLocation → ℕ → ℕ
or_word none old = old
or_word (some l) old = l.word

or_word-cons :
    (id k old : ℕ) (l : DiskLocation) (table : Assoc DiskLocation)
    → Fresh id table
    → or_word (lookup k table) (set_word id l.word (λ j. old) k)
      ≡ or_word (lookup k ((id, l) ∷ table)) old
unfolding lookup
or_word-cons id k old l table fresh = elim (Bool-cases (id == k)) [
  | inl e ↦
      let gone : lookup k table ≡ none =
        lookup-Fresh k table (subst (λ j. Fresh j table) ((==_iff id k).0 e) fresh) in
      rw (e, gone) refl
  | inr e ↦ rw e refl
]

module _ {T M : Type 0} (crates : Crates T M) (ks : List ℕ) (d : IsDescending ks) (full : ℕ → ℕ)
    (small : All (λ k. live_count (2 ^ 64) ks full k < 2 ^ 64) ks) (bound : ℕ)
    (below : All (λ k. k < bound) ks) where
  open crates use {pages, maps}

  -- Each id of the table has no word yet, and gets its own, which falls into a file.
  abbrev pub Placeable : (ℕ → ℕ) → Assoc DiskLocation → Type 0
  Placeable words = All λ (p : ℕ × DiskLocation).
      (p.0 < 2 ^ 64) × (0 < home ks p.1.word) × (words p.0 ≡ 0) × (full p.0 ≡ p.1.word)

  Placeable-set :
      (words words' : ℕ → ℕ) (id word : ℕ) (table : Assoc DiskLocation)
      → Fresh id table
      → ((k : ℕ) → words' k ≡ set_word id word words k)
      → Placeable words table
      → Placeable words' table
  Placeable-set words words' id word [] fresh at h = tt
  Placeable-set words words' id word ((j, l) ∷ table) fresh at h = (
    (h.0.0, h.0.1, ground (arith, at j, fresh.0, h.0.2), h.0.3),
    Placeable-set words words' id word table fresh.1 at h.1,
  )

  -- The counts hold for the part of the table that is there.
  pub record IsCounted (es : Fams) (words : ℕ → ℕ) : Type 0 where
    pub keys : keys es ≡ ks
    pub counted : Counted (live_count (2 ^ 64) ks words) es
    pub part : (k : ℕ) → (words k ≡ 0) ⊎ (words k ≡ full k)

  count_one :
      (es : Fams) (words words' : ℕ → ℕ) (id : ℕ) (l : DiskLocation)
      → ((k : ℕ) → words' k ≡ set_word id l.word words k)
      → id < 2 ^ 64
      → 0 < home ks l.word
      → words id ≡ 0
      → full id ≡ l.word
      → IsCounted es words
      → IsCounted (adjusted (λ n. add64 n 1) l.word es) words'
  count_one es words words' id l at in_bound falls unplaced fully c =
      let same : words' ≡ set_word id l.word words = fun_ext at in
      let part' : (k : ℕ) → (words' k ≡ 0) ⊎ (words' k ≡ full k) = λ k. part_one k in
      let counts : (i : ℕ)
          → 0 < i
          → live_count (2 ^ 64) ks words' i ≡ (
              if i == home ks l.word
              then live_count (2 ^ 64) ks words i + 1
              else live_count (2 ^ 64) ks words i) =
        λ i pos.
          ap (λ f. live_count (2 ^ 64) ks f i) same
          ∙ live_count-placed (2 ^ 64) ks words id l.word i d in_bound unplaced pos in
      let fits = home-All (λ k. live_count (2 ^ 64) ks full k < 2 ^ 64) ks l.word small falls in
      let no_more = live_count-part (2 ^ 64) ks words' full (home ks l.word) d part' falls in
      let fits' : (i : ℕ) → i ≡ home ks l.word → live_count (2 ^ 64) ks words' i < 2 ^ 64 = λ i e.
        subst (λ j. live_count (2 ^ 64) ks words' j < 2 ^ 64) (sym e)
          (omega (arith, no_more, fits)) in
      record {
        keys = keys-adjusted (λ n. add64 n 1) l.word es ∙ c.keys;
        counted =
            Counted-adjusted (λ n. add64 n 1) (live_count (2 ^ 64) ks words)
              (live_count (2 ^ 64) ks words') l.word bound es
              (λ i pos lt. rw c.keys (ground (arith, counts i pos, fits' i)))
              (AllKeys-keys (λ k. k < bound) es (rw c.keys below)) (rw c.keys d) c.counted;
        part = part';
      }
    where
      part_one : (k : ℕ) → (words' k ≡ 0) ⊎ (words' k ≡ full k)
      part_one k = elim (Bool-cases (id == k)) [
        | inl e ↦ inr (at k ∙ rw e (sym fully ∙ ap full ((==_iff id k).0 e)))
        | inr e ↦ elim (c.part k) [ inl z ↦ inl (at k ∙ rw e z) | inr f ↦ inr (at k ∙ rw e f) ]
      ]

  pub install_recovered-counts :
      (table : Assoc DiskLocation) (w : World T M)
      → Distinct table
      → Placeable (pages.get w.location_table) table
      → IsCounted (maps.entries w.fams) (pages.get w.location_table)
      → (oid : ℕ) × (t : T) × (fams : M) × (install_recovered crates table w
          ≡ (ok tt, record w { max_object_id = oid; location_table = t; fams = fams }))
        × IsCounted (maps.entries fams) (pages.get t)
        × ((word : ℕ) → core_from word (maps.entries fams) ≡ core_from word (maps.entries w.fams))
        × ((k : ℕ) → pages.get t k ≡ or_word (lookup k table) (pages.get w.location_table k))
  unfolding install_recovered lookup LocationTable.store DiskLocation.to_raw
  install_recovered-counts [] w distinct placeable c =
      (w.max_object_id, w.location_table, w.fams, refl, c, λ word. refl, λ k. refl)
  install_recovered-counts ((id, l) ∷ table) w (fresh, distinct)
        ((in_bound, falls, unplaced, fully), more) c =
      let (p, found, at_home) = home-first_from l (maps.entries w.fams) (rw c.keys falls) in
      let seeks : maps.seek w.fams l ≡ some p = maps.seek_lem w.fams l ∙ found in
      let fam' = record p.1 { live_objects = add64 p.1.live_objects 1 } in
      let w1 = record w {
        max_object_id = max w.max_object_id id;
        fams = maps.insert w.fams p.0 fam';
        location_table = pages.set w.location_table id l.word;
      } in
      let placed : maps.entries w1.fams ≡ adjusted (λ n. add64 n 1) l.word (maps.entries w.fams) =
        maps.entries-insert w.fams p.0 fam'
        ∙ place-adjusted (λ n. add64 n 1) l (maps.entries w.fams) p (rw c.keys d) found in
      let at = pages.get-set w.location_table id in
      let words = pages.get w.location_table in
      let words1 = pages.get w1.location_table in
      let c1 =
        count_one (maps.entries w.fams) words words1 id l (λ k. at k l.word) in_bound falls unplaced
          fully c in
      let (oid, t, fams, e, c', cores, at') =
        install_recovered-counts table w1 distinct
          (Placeable-set words words1 id l.word table fresh (λ k. at k l.word) more)
          (rw placed c1) in
      (
        oid,
        t,
        fams,
        rw (install_recovered, seeks, e) refl,
        c',
        λ word.
            cores word
            ∙ ap (core_from word) placed
            ∙ core_from-adjusted (λ n. add64 n 1) word l.word (maps.entries w.fams),
        λ k.
            at' k
            ∙ ap (or_word (lookup k table)) (at k l.word)
            ∙ or_word-cons id k (words k) l table fresh,
      )
