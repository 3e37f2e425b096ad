-- ===== src/FileMap/Moves.antt =====
-- A batch moves its ids into a new file, one after the other: the counts of src/file_map.rs follow.
pub mod OneId
use marble.Prelude.{
  ℕ, zero, suc, ◌+◌, ◌-◌, ◌*◌, ◌^◌, ◌≤◌, ◌<◌, ◌≡◌, ◌≢◌, refl, sym, ap, subst, ◌∙◌, arith, Bool,
  true, false, Option, none, some, List, [], ◌∷◌, All, length, leb, ◌==◌, ==_refl, ==_iff,
  if◌then◌else◌, Bool-cases, inl, inr, leb→le, le→leb, ◌⊎◌,
}
use marble.Prelude.Assoc.{Assoc, lookup, Distinct, Fresh}
use marble.Prelude.Counting.{count_below, count_below-change, count_below-pos, bit}
use marble.ConcurrentMap.{first_from}
use marble.DiskLocation.{DiskLocation}
use marble.FileMap.Counts.{live_count, Counted, AllKeys, Counted-adjusted, Counted-same, home_lt}
use marble.FileMap.Decrement.{decremented_all, Removable}
use marble.FileMap.Homes.{
  Fams, keys, IsDescending, All-keys, home, home-first_from, first_from-All, decremented, adjusted,
  keys-adjusted,
}
use marble.FileMap.Moves.OneId.{
  set_word, home_pos, home-latest, home-older, home_zero, live_count-older, live_count-pos,
  live_count-newest,
}
use marble.RelativeDiskLocation.{RelativeDiskLocation}
use marble.Trailer.{Locations}
use marble.World.{FileAndMetadata}

-- The words after each id of a batch has its location in the file `base_lsn`.
unfoldable pub words_after : ℕ → Locations → (ℕ → ℕ) → ℕ → ℕ
words_after base_lsn [] words = words
words_after base_lsn ((id, r) ∷ rest) words =
    words_after base_lsn rest (set_word id (base_lsn * 2 + r.word) words)

-- The locations that are replaced, where an id without location has the word 0.
abbrev pub old_entry : ℕ → ℕ → Assoc DiskLocation → Assoc DiskLocation
old_entry id word olds = if word == 0 then olds else (id, record { word = word }) ∷ olds

unfoldable pub old_entries : (ℕ → ℕ) → Locations → Assoc DiskLocation
old_entries words [] = []
old_entries words ((id, r) ∷ rest) = old_entry id (words id) (old_entries words rest)

-- Ids below `n` whose words fall into files older than `base`, if into any.
abbrev pub Movable : ℕ → ℕ → List ℕ → (ℕ → ℕ) → Locations → Type 0
Movable n base ks words = All λ (p : ℕ × RelativeDiskLocation).
    (p.0 < n) × (words p.0 < base) × ((words p.0 ≡ 0) ⊎ (0 < home ks (words p.0)))

abbrev pub AreSmall : Fams → Type 0
AreSmall = All λ (p : DiskLocation × FileAndMetadata). p.1.live_objects < 2 ^ 64

Movable-set :
    (n base : ℕ) (ks : List ℕ) (words : ℕ → ℕ) (id w : ℕ) (rest : Locations)
    → Fresh id rest
    → Movable n base ks words rest
    → Movable n base ks (set_word id w words) rest
Movable-set n base ks words id w [] f m = tt
Movable-set n base ks words id w ((j, r) ∷ rest) f m =
    let other : (id == j) ≡ false = ground (arith, f.0) in
    (rw other m.0, Movable-set n base ks words id w rest f.1 m.1)

old_entries-set :
    (words : ℕ → ℕ) (id w : ℕ) (rest : Locations)
    → Fresh id rest
    → old_entries (set_word id w words) rest ≡ old_entries words rest
unfolding old_entries
old_entries-set words id w [] f = refl
old_entries-set words id w ((j, r) ∷ rest) f =
    let other : (id == j) ≡ false = ground (arith, f.0) in
    rw other (ap (old_entry j (words j)) (old_entries-set words id w rest f.1))

AreSmall-decremented : (word : ℕ) (es : Fams) → AreSmall es → AreSmall (decremented word es)
unfolding adjusted
AreSmall-decremented word [] h = tt
AreSmall-decremented word ((j, fam) ∷ es) h = ground (arith, AreSmall-decremented word es h.1)

AllKeys-pos : (es : Fams) → IsDescending (keys es) → AllKeys (λ k. 0 < k) es
AllKeys-pos [] d = tt
AllKeys-pos ((j, fam) ∷ es) d = (d.0, AllKeys-pos es d.2)

AllKeys-bounds :
    (base : ℕ) (es : Fams) → IsDescending (base ∷ keys es) → AllKeys (λ k. (0 < k) × (k < base)) es
AllKeys-bounds base [] d = tt
AllKeys-bounds base ((j, fam) ∷ es) d = ((d.2.0, d.1.0), AllKeys-bounds base es (d.0, d.1.1, d.2.2))

-- What the replaced locations `olds` do to the files that are older than that of the batch.
abbrev pub Settled : DiskLocation → List ℕ → (ℕ → ℕ) → Fams → Assoc DiskLocation → Type 0
Settled base ks counts es olds =
    Removable base olds es
    × Counted counts (decremented_all olds es)
    × AreSmall (decremented_all olds es)
    × (keys (decremented_all olds es) ≡ ks)

module _ (n : ℕ) (base : DiskLocation) (base_lsn : ℕ) (ks : List ℕ)
    (based : base.word ≡ base_lsn * 2) (d : IsDescending (base.word ∷ ks)) where
  abbrev counts : (ℕ → ℕ) → ℕ → ℕ
  counts words = live_count n (base.word ∷ ks) words

  count_new_id :
      (words : ℕ → ℕ) (id new : ℕ) (es : Fams)
      → id < n
      → words id ≡ 0
      → base.word ≤ new
      → keys es ≡ ks
      → Counted (counts words) es
      → Counted (counts (set_word id new words)) es
  count_new_id words id new es lt absent newer ke c =
      Counted-same (counts words) (counts (set_word id new words)) (λ i. (0 < i) × (i < base.word))
        es
        (λ i h. ground (
          arith,
          live_count-older n base.word ks words id new lt (omega arith) newer i,
          home_zero ks d.2,
          absent,
        ))
        (AllKeys-bounds base.word es (rw ke d)) c

  count_old_id :
      (words : ℕ → ℕ) (id new : ℕ) (es : Fams)
      → id < n
      → words id < base.word
      → base.word ≤ new
      → keys es ≡ ks
      → Counted (counts words) es
      → Counted (counts (set_word id new words)) (decremented (words id) es)
  count_old_id words id new es lt older newer ke c =
      Counted-adjusted (λ n. n - 1) (counts words) (counts (set_word id new words)) (words id)
        base.word es
        (λ i pos h. rw ke (live_count-older n base.word ks words id new lt older newer i h))
        (All-keys base.word es (rw ke d.1)) (rw ke d.2) c

  -- The file that a location falls into has a live object.
  has_live :
      (words : ℕ → ℕ) (id : ℕ) (es : Fams)
      → id < n
      → words id < base.word
      → 0 < home ks (words id)
      → keys es ≡ ks
      → Counted (counts words) es
      → AreSmall es
      → (p : DiskLocation × FileAndMetadata) × (first_from (record { word = words id }) es ≡ some p)
        × (0 < p.1.live_objects)
        × (p.1.live_objects < 2 ^ 64)
  has_live words id es lt older falls ke c small =
      let (p, found, at) = home-first_from (record { word = words id }) es (rw ke falls) in
      let counted =
        first_from-All (λ q. q.1.live_objects ≡ counts words q.0.word) (record { word = words id })
          es p c found in
      let pos = live_count-pos n base.word ks words id base.word lt older (omega arith) in
      (
        p,
        found,
        (omega (
          arith,
          counted,
          pos,
          ap (counts words) at,
          ap (λ k. counts words (home k (words id))) ke,
        )),
        first_from-All (λ q. q.1.live_objects < 2 ^ 64) (record { word = words id }) es p small
            found,
      )

  -- The ids of a batch move to its file one after the other: each replaced location falls into a file
  -- with a live object left, every count stays true, and the new file counts the whole batch.
  pub moves :
      (locations : Locations) (words : ℕ → ℕ) (es : Fams)
      → keys es ≡ ks
      → Distinct locations
      → Movable n base.word ks words locations
      → Counted (counts words) es
      → AreSmall es
      → Settled base ks
          (counts (words_after base_lsn locations words))
          es
          (old_entries words locations)
        × (counts (words_after base_lsn locations words) base.word
            ≡ counts words base.word + length locations)
  unfolding words_after old_entries decremented_all
  moves [] words es ke dd m c s = ((tt, c, s, ke), omega arith)
  moves ((id, r) ∷ rest) words es ke dd m c s =
      let new = base_lsn * 2 + r.word in
      let words' = set_word id new words in
      let final = counts (words_after base_lsn rest words') in
      let newer : base.word ≤ new = omega arith in
      let newest = live_count-newest n base.word ks words id new m.0.0 m.0.1 newer d in
      let m' = Movable-set n base.word ks words id new rest dd.0 m.1 in
      let olds = old_entries-set words id new rest dd.0 in
      elim m.0.2 [
        | inl absent ↦
            let c' = count_new_id words id new es m.0.0 absent newer ke c in
            let (r', total) = moves rest words' es ke dd.1 m' c' s in
            (
              subst (Settled base ks final es) (olds ∙ rw absent refl) r',
              omega (arith, total, newest),
            )
        | inr falls ↦
            let here = decremented (words id) es in
            let c' = count_old_id words id new es m.0.0 m.0.1 newer ke c in
            let s' = AreSmall-decremented (words id) es s in
            let (r', total) =
              moves rest words' here (keys-adjusted (λ n. n - 1) (words id) es ∙ ke) dd.1 m' c'
                s' in
            let r'' = subst (Settled base ks final here) olds r' in
            let some_word : (words id == 0) ≡ false =
              ground (arith, home_pos ks (words id) d.2 falls) in
            (
              rw some_word (
                ((m.0.1, has_live words id es m.0.0 m.0.1 falls ke c s), r''.0),
                r''.1,
                r''.2,
                r''.3,
              ),
              omega (arith, total, newest),
            )
      ]
