-- ===== src/FileMap/Counts.antt =====
-- The counts of live objects (src/file_map.rs): a file's count is the number of ids whose location
-- falls into it. What happens to that when a batch moves its ids to a new file.
use marble.Prelude.{
  ℕ, ◌<◌, ◌≡◌, ap, sym, ◌∙◌, arith, List, [], ◌∷◌, All, leb, ◌==◌, if◌then◌else◌, Bool-cases, inl,
  inr,
}
use marble.Prelude.Counting.{count_below}
use marble.DiskLocation.{DiskLocation}
use marble.FileMap.Homes.{Fams, keys, IsDescending, home, adjusted}
use marble.World.{FileAndMetadata}

-- How many of the ids below `n` have a word that falls into the file `key`.
unfoldable pub live_count : ℕ → List ℕ → (ℕ → ℕ) → ℕ → ℕ
live_count n ks words key = count_below n (λ k. home ks (words k) == key)

-- Every file's record has the count that a function gives.
abbrev pub Counted : (ℕ → ℕ) → Fams → Type 0
Counted counts = All λ (p : DiskLocation × FileAndMetadata). p.1.live_objects ≡ counts p.0.word

abbrev pub AllKeys : (ℕ → Type 0) → Fams → Type 0
AllKeys P = All λ (p : DiskLocation × FileAndMetadata). P p.0.word

pub Counted-same :
    (counts counts' : ℕ → ℕ) (P : ℕ → Type 0) (es : Fams)
    → ((i : ℕ) → P i → counts' i ≡ counts i)
    → AllKeys P es
    → Counted counts es
    → Counted counts' es
Counted-same counts counts' P [] h a c = tt
Counted-same counts counts' P ((j, fam) ∷ es) h a c =
    (c.0 ∙ sym (h j.word a.0), Counted-same counts counts' P es h a.1 c.1)

pub home_lt :
    (bound word : ℕ) (ks : List ℕ) → 0 < bound → All (λ k. k < bound) ks → home ks word < bound
unfolding home
home_lt bound word [] p h = p
home_lt bound word (k ∷ ks) p h = ground (arith, home_lt bound word ks p h.1)

pub AllKeys-keys : (P : ℕ → Type 0) (es : Fams) → All P (keys es) → AllKeys P es
AllKeys-keys P [] h = tt
AllKeys-keys P ((j, fam) ∷ es) h = (h.0, AllKeys-keys P es h.1)

All-positive :
    (bound : ℕ) (ks : List ℕ)
    → IsDescending ks
    → All (λ k. k < bound) ks
    → All (λ k. (0 < k) × (k < bound)) ks
All-positive bound [] d h = tt
All-positive bound (k ∷ ks) d h = ((d.0, h.0), All-positive bound ks d.2 h.1)

-- Where the count of one file changes, its record does too.
pub Counted-adjusted :
    (g : ℕ → ℕ) (counts counts' : ℕ → ℕ) (word : ℕ) (bound : ℕ) (es : Fams)
    → ((i : ℕ)
        → 0 < i
        → i < bound
        → counts' i ≡ (if i == home (keys es) word then g (counts i) else counts i))
    → AllKeys (λ k. k < bound) es
    → IsDescending (keys es)
    → Counted counts es
    → Counted counts' (adjusted g word es)
unfolding adjusted home
Counted-adjusted g counts counts' word bound [] h a d c = tt
Counted-adjusted g counts counts' word bound ((j, fam) ∷ es) h a d c =
    let later =
      AllKeys-keys (λ i. (0 < i) × (i < j.word)) es (All-positive j.word (keys es) d.2 d.1) in
    elim (Bool-cases (leb j.word word)) [
      | inl le ↦
          let here : counts' j.word ≡ g (counts j.word) = ground (arith, h j.word d.0 a.0) in
          rw le (
            ap g c.0 ∙ sym here,
            Counted-same counts counts' (λ i. (0 < i) × (i < j.word)) es
                (λ i lt. ground (arith, h i)) later c.1,
          )
      | inr gt ↦
          let lower = home_lt j.word word (keys es) d.0 d.1 in
          rw gt (
            c.0 ∙ ground (arith, h j.word d.0 a.0, lower),
            Counted-adjusted g counts counts' word bound es (λ i pos lt. ground (arith, h i)) a.1
                d.2 c.1,
          )
    ]
