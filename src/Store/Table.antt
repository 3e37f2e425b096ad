-- ===== src/Store/Table.antt =====
-- What a user's batch does to the words of the location table and to the counts of the file map, in the
-- terms of FileMap/Moves.antt.
use marble.Prelude.{
  ℕ, ◌+◌, ◌*◌, ◌^◌, ◌≤◌, ◌<◌, ◌≡◌, refl, sym, ap, subst, ◌∙◌, arith, false, Option, none, some, [],
  ◌∷◌, List, All, length, ◌==◌, ◌⊎◌, inl, inr, Bool-cases,
}
use mathlib.Core.Path.{fun_ext}
use marble.Prelude.Assoc.{Assoc, lookup, Distinct}
use marble.Prelude.Bytes.{Bytes}
use marble.Prelude.Counting.{count_below-ext, count_below-none}
use marble.Crc32.{Crc32}
use marble.DiskLocation
use marble.DiskLocation.{DiskLocation}
use marble.FileMap.Counts.{live_count, Counted, home_lt}
use marble.FileMap.Homes.{Fams, home}
use marble.FileMap.Moves.{words_after, old_entries, Movable}
use marble.FileMap.Moves.OneId.{set_word, home-older}
use marble.LocationTable
use marble.PageTable.{PageTable}
use marble.RelativeDiskLocation.{RelativeDiskLocation}
use marble.Trailer.{Locations}
use marble.WritePath.Install.Exact.{Newer, installed_word, installed_word-cons, replaced}
use marble.WritePath.Layout.{file_bytes, relative_locations, length-record_and_rest}

module _ {T : Type 0} (pages : PageTable T) (lsn : ℕ) where
  open pages use {get}

  pub replaced-old_entries :
      (t : T) (locations : Locations)
      → replaced pages lsn t locations ≡ old_entries (get t) locations
  unfolding replaced old_entries LocationTable.load DiskLocation.from_raw
  replaced-old_entries t [] = refl
  replaced-old_entries t ((id, r) ∷ rest) = elim (Bool-cases (get t id == 0)) [
    | inl e ↦ rw e (replaced-old_entries t rest)
    | inr e ↦
        rw e (ap (λ olds. (id, record { word = get t id }) ∷ olds) (replaced-old_entries t rest))
  ]

  pub words_after-installed_word :
      (words : ℕ → ℕ) (k : ℕ) (locations : Locations)
      → Distinct locations
      → words_after lsn locations words k ≡ installed_word pages lsn (lookup k locations) (words k)
  unfolding words_after lookup
  words_after-installed_word words k [] d = refl
  words_after-installed_word words k ((id, r) ∷ rest) d =
      words_after-installed_word (set_word id (lsn * 2 + r.word) words) k rest d.1
      ∙ installed_word-cons pages lsn k id (words k) _ r rest d.0 refl

  -- The words after the batch as a function.
  pub words-installed :
      (t t' : T) (locations : Locations)
      → Distinct locations
      → ((k : ℕ) → get t' k ≡ installed_word pages lsn (lookup k locations) (get t k))
      → words_after lsn locations (get t) ≡ get t'
  words-installed t t' locations d at =
      fun_ext λ k. words_after-installed_word (get t) k locations d ∙ sym (at k)

-- Every id of the batch is an id, and every relative location lies within the file.
unfoldable pub IsWithin : ℕ → Locations → Type 0
IsWithin n = All λ (p : ℕ × RelativeDiskLocation). (p.0 < 2 ^ 64) × (p.1.word ≤ n * 2 + 1)

pub IsWithin-lookup :
    (n k : ℕ) (r : RelativeDiskLocation) (locations : Locations)
    → IsWithin n locations
    → lookup k locations ≡ some r
    → r.word ≤ n * 2 + 1
unfolding IsWithin lookup
IsWithin-lookup n k r [] h e = absurd (cc)
IsWithin-lookup n k r ((id, here) ∷ rest) h e = elim (Bool-cases (id == k)) [
  | inl same ↦
      let eq : some here ≡ some r = rw same at e in
      subst (λ x. x.word ≤ n * 2 + 1) (the_same eq) h.0.1
  | inr other ↦ IsWithin-lookup n k r rest h.1 (rw other at e)
]
  where
    the_same : some here ≡ some r → here ≡ r
    the_same eq = cc

pub IsWithin-id :
    (n k : ℕ) (locations : Locations)
    → IsWithin n locations
    → 2 ^ 64 ≤ k
    → lookup k locations ≡ none
unfolding IsWithin lookup
IsWithin-id n k [] h large = refl
IsWithin-id n k ((id, here) ∷ rest) h large =
    let other : (id == k) ≡ false = ground (arith, h.0.0, large) in
    rw other (IsWithin-id n k rest h.1 large)

module _ (crc : Crc32) (encode : Bytes → Bytes) (n : ℕ) where
  pub relative_locations-IsWithin :
      (offset : ℕ) (objects : Assoc (Option Bytes))
      → All (λ (p : ℕ × Option Bytes). p.0 < 2 ^ 64) objects
      → offset + length (file_bytes crc encode objects) ≤ n
      → IsWithin n (relative_locations encode offset objects)
  unfolding IsWithin relative_locations file_bytes
  relative_locations-IsWithin offset [] ids h = tt
  relative_locations-IsWithin offset ((id, none) ∷ rest) ids h =
      ((ids.0, omega arith), relative_locations-IsWithin offset rest ids.1 h)
  relative_locations-IsWithin offset ((id, some raw) ∷ rest) ids h =
      let size = length-record_and_rest crc encode id raw rest in
      (
        (ids.0, omega (arith, h)),
        relative_locations-IsWithin (offset + (20 + length (encode raw))) rest ids.1
            (omega (arith, size, h)),
      )

module _ {T : Type 0} (pages : PageTable T) (lsn : ℕ) (t : T) where
  open pages use {get}

  pub IsWithin-Newer :
      (n : ℕ) (locations : Locations)
      → ((k : ℕ) → get t k < lsn * 2)
      → lsn * 2 + (n * 2 + 1) < 2 ^ 64
      → IsWithin n locations
      → Newer pages lsn t locations
  unfolding IsWithin
  IsWithin-Newer n [] older fits h = tt
  IsWithin-Newer n ((id, r) ∷ rest) older fits h =
      ((omega (arith, older id), omega (arith, fits, h.0.1)), IsWithin-Newer n rest older fits h.1)

  pub IsWithin-Movable :
      (n : ℕ) (ks : List ℕ) (locations : Locations)
      → ((k : ℕ) → get t k < lsn * 2)
      → ((k : ℕ) → (get t k ≡ 0) ⊎ (0 < home ks (get t k)))
      → IsWithin n locations
      → Movable (2 ^ 64) (lsn * 2) ks (get t) locations
  unfolding IsWithin
  IsWithin-Movable n ks [] older falls h = tt
  IsWithin-Movable n ks ((id, r) ∷ rest) older falls h =
      ((h.0.0, older id, falls id), IsWithin-Movable n ks rest older falls h.1)

module _ (n base : ℕ) (ks : List ℕ) (words : ℕ → ℕ) (older : (k : ℕ) → words k < base) where
  -- A new file changes no count before words fall into it, and counts nothing.
  pub live_count-new_key :
      (key : ℕ) → live_count n (base ∷ ks) words key ≡ live_count n ks words key
  unfolding live_count
  live_count-new_key key =
      count_below-ext n (λ k. home (base ∷ ks) (words k) == key) (λ k. home ks (words k) == key)
        (λ k lt. ap (λ h. h == key) (home-older base (words k) ks (older k)))

  pub live_count-nothing :
      0 < base → All (λ k. k < base) ks → live_count n (base ∷ ks) words base ≡ 0
  unfolding live_count
  live_count-nothing p d =
      count_below-none n (λ k. home (base ∷ ks) (words k) == base) (λ k. not_here k)
    where
      not_here : (k : ℕ) → (home (base ∷ ks) (words k) == base) ≡ false
      not_here k =
          ap (λ h. h == base) (home-older base (words k) ks (older k))
          ∙ ground (arith, home_lt base (words k) ks p d)

Counted-eq :
    (counts counts' : ℕ → ℕ) (es : Fams)
    → ((i : ℕ) → counts' i ≡ counts i)
    → Counted counts es
    → Counted counts' es
Counted-eq counts counts' [] h c = tt
Counted-eq counts counts' ((j, fam) ∷ es) h c =
    (c.0 ∙ sym (h j.word), Counted-eq counts counts' es h c.1)

pub Counted-new_key :
    (n base : ℕ) (ks : List ℕ) (words : ℕ → ℕ) (es : Fams)
    → ((k : ℕ) → words k < base)
    → Counted (live_count n ks words) es
    → Counted (live_count n (base ∷ ks) words) es
Counted-new_key n base ks words es older =
    Counted-eq (live_count n ks words) (live_count n (base ∷ ks) words) es
      (live_count-new_key n base ks words older)
