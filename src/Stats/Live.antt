-- ===== src/Stats/Live.antt =====
-- The live objects that `stats` reports (src/lib.rs, src/file_map.rs): the sum of the files' counts is
-- the number of ids that the location table has.
use marble.Prelude.{
  ℕ, ◌+◌, ◌%◌, ◌^◌, ◌<◌, ◌≡◌, refl, sym, ap, ◌∙◌, arith, Bool, true, false, not, ◌||◌, some, List,
  [], ◌∷◌, All, ◌==◌, ==_refl, ==_iff, leb, Bool-cases, inl, inr,
}
use marble.Prelude.Counting.{count_below, count_below-ext, count_below-none, count_below_or}
use marble.DiskLocation.{DiskLocation}
use marble.FileMap
use marble.FileMap.Counts.{live_count, Counted}
use marble.FileMap.Homes.{Fams, keys, IsDescending, home}
use marble.FileMap.Moves.OneId.{home_zero, home_pos}
use marble.Metadata.{Metadata}
use marble.Stats
use marble.Store.{Objects, IsStore}
use marble.Store.After.{falls}
use marble.World.{FileAndMetadata, Crates, World}

has : List ℕ → ℕ → Bool
has [] j = false
has (k ∷ ks) j = j == k || has ks j

has-below : (j : ℕ) (ks : List ℕ) → All (λ k. k < j) ks → has ks j ≡ false
unfolding has
has-below j [] h = refl
has-below j (k ∷ ks) h = ground (arith, has-below j ks h.1)

has-home : (ks : List ℕ) (word : ℕ) → 0 < home ks word → has ks (home ks word) ≡ true
unfolding has home
has-home [] word pos = absurd (omega arith)
has-home (k ∷ ks) word pos = elim (Bool-cases (leb k word)) [
  | inl e ↦ rw (e, ==_refl k) refl
  | inr e ↦ rw (e, has-home ks word (rw e at pos)) (or_true (home ks word == k))
]
  where
    or_true : (b : Bool) → (b || true) ≡ true
    or_true true = refl
    or_true false = refl

has-zero : (ks : List ℕ) → IsDescending ks → has ks 0 ≡ false
unfolding has
has-zero [] d = refl
has-zero (k ∷ ks) d = ground (arith, d.0, has-zero ks d.2)

sum_counts : (ℕ → ℕ) → List ℕ → ℕ
sum_counts counts [] = 0
sum_counts counts (k ∷ ks) = counts k + sum_counts counts ks

-- Each number goes to one key at most.
sum_counts-has :
    (n : ℕ) (f : ℕ → ℕ) (ks : List ℕ)
    → IsDescending ks
    → sum_counts (λ key. count_below n (λ k. f k == key)) ks ≡ count_below n (λ k. has ks (f k))
unfolding sum_counts has
sum_counts-has n f [] d = sym (count_below-none n (λ k. false) (λ k. refl))
sum_counts-has n f (key ∷ ks) d =
    ap (λ s. count_below n (λ k. f k == key) + s) (sum_counts-has n f ks d.2)
    ∙ count_below_or n (λ k. f k == key) (λ k. has ks (f k)) (λ k e. excludes (f k) e)
  where
    excludes : (j : ℕ) → (j == key) ≡ true → has ks j ≡ false
    excludes j e =
        let same : j ≡ key = (==_iff j key).0 e in ap (has ks) same ∙ has-below key ks d.1

total_live : Fams → ℕ
total_live [] = 0
total_live ((j, fam) ∷ es) = fam.live_objects + total_live es

Counted-total :
    (counts : ℕ → ℕ) (es : Fams) → Counted counts es → total_live es ≡ sum_counts counts (keys es)
unfolding total_live sum_counts
Counted-total counts [] c = refl
Counted-total counts ((j, fam) ∷ es) c = omega (arith, c.0, Counted-total counts es c.1)

-- Each file has its metadata.
unfoldable pub AllNamed : Fams → Type 0
AllNamed = All λ (p : DiskLocation × FileAndMetadata). (m : Metadata) × (p.1.metadata ≡ some m)

module _ {T M : Type 0} (crates : Crates T M) where
  open crates use {pages, maps}

  count_fams-total :
      (es : Fams) (files size stored live : ℕ)
      → AllNamed es
      → live < 2 ^ 64
      → (FileMap.count_fams crates es (files, size, stored, live)).3
        ≡ (live + total_live es) % 2 ^ 64
  unfolding FileMap.count_fams total_live AllNamed
  count_fams-total [] files size stored live named h = omega arith
  count_fams-total ((j, fam) ∷ es) files size stored live ((m, e), named) h = rw e (
      count_fams-total es (files + 1) _ _ ((live + fam.live_objects) % 2 ^ 64) named (omega arith)
      ∙ omega arith)

  -- In a state that holds a map, and whose files all have their metadata, the live objects that `stats`
  -- reports are the ids that have a location in the location table, deleted ones among them, counted
  -- modulo 2 ^ 64.
  pub stats-live_objects :
      (objects : Objects) (w : World T M)
      → IsStore crates objects w
      → AllNamed (maps.entries w.fams)
      → (Stats.stats crates w).live_objects
        ≡ count_below (2 ^ 64) (λ k. not (pages.get w.location_table k == 0)) % 2 ^ 64
  unfolding Stats.stats FileMap.stats live_count
  stats-live_objects objects w s named =
      let es = maps.entries w.fams in
      let words = pages.get w.location_table in
      count_fams-total es 0 0 0 0 named (omega arith)
      ∙ ap (λ n. (0 + n) % 2 ^ 64)
          (Counted-total (live_count (2 ^ 64) (keys es) words) es s.counted ∙ located)
      ∙ omega arith
    where
      ks : List ℕ
      ks = keys (maps.entries w.fams)

      words : ℕ → ℕ
      words = pages.get w.location_table

      located :
          sum_counts
            (live_count (2 ^ 64) (keys (maps.entries w.fams)) (pages.get w.location_table))
            (keys (maps.entries w.fams))
          ≡ count_below (2 ^ 64) (λ k. not (pages.get w.location_table k == 0))
      located =
          sum_counts-has (2 ^ 64)
            (λ k. home (keys (maps.entries w.fams)) (pages.get w.location_table k))
            (keys (maps.entries w.fams)) s.descending
          ∙ count_below-ext (2 ^ 64) _ _ (λ k lt. elim (falls crates objects w s k) [
            | inl z ↦
                ap (λ word. has ks (home ks word)) z
                ∙ ap (has ks) (home_zero ks s.descending)
                ∙ has-zero ks s.descending
                ∙ ap (λ word. not (word == 0)) (sym z)
            | inr at ↦
                has-home ks (words k) at
                ∙ sym (ground (arith, home_pos ks (words k) s.descending at))
          ])
