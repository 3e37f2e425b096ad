-- ===== src/FileMap/Moves/OneId.antt =====
-- One id moves into a new file: what that does to the counts of src/file_map.rs.
use marble.Prelude.{
  ℕ, ◌+◌, ◌-◌, ◌≤◌, ◌<◌, ◌≡◌, ◌≢◌, refl, sym, ap, ◌∙◌, arith, Bool, false, List, [], ◌∷◌, ◌==◌,
  ==_refl, if◌then◌else◌, le→leb,
}
use marble.Prelude.Counting.{count_below, count_below-change, count_below-pos, bit}
use marble.FileMap.Counts.{live_count, home_lt}
use marble.FileMap.Homes.{IsDescending, home}

abbrev pub set_word : ℕ → ℕ → (ℕ → ℕ) → ℕ → ℕ
set_word id word words k = if id == k then word else words k

pub home-latest : (base word : ℕ) (ks : List ℕ) → base ≤ word → home (base ∷ ks) word ≡ base
unfolding home
home-latest base word ks h = rw (le→leb base word h) refl

pub home-older : (base word : ℕ) (ks : List ℕ) → word < base → home (base ∷ ks) word ≡ home ks word
unfolding home
home-older base word ks h = ground arith

pub home_pos : (ks : List ℕ) (word : ℕ) → IsDescending ks → 0 < home ks word → 0 < word
unfolding home
home_pos [] word d h = absurd (omega arith)
home_pos (k ∷ ks) word d h = ground (arith, home_pos ks word d.2, d.0)

pub home_zero : (ks : List ℕ) → IsDescending ks → home ks 0 ≡ 0
unfolding home
home_zero [] d = refl
home_zero (k ∷ ks) d = ground (arith, home_zero ks d.2, d.0)

module _ (n base : ℕ) (ks : List ℕ) (words : ℕ → ℕ) (id new : ℕ) (in_bound : id < n)
    (older : words id < base) (newer : base ≤ new) where
  test : (ℕ → ℕ) → ℕ → ℕ → Bool
  test f key k = home (base ∷ ks) (f k) == key

  change :
      (key : ℕ)
      → count_below n (test (set_word id new words) key) + bit (home ks (words id) == key)
        ≡ count_below n (test words key) + bit (base == key)
  unfolding test
  change key =
      ap (λ h. count_below n (test (set_word id new words) key) + bit (h == key))
        (sym (home-older base (words id) ks older))
      ∙ count_below-change n id (test words key) (test (set_word id new words) key) in_bound
          (λ k ne. same k ne)
      ∙ ap (λ h. count_below n (test words key) + bit (h == key)) now
    where
      same : (k : ℕ) → k ≢ id → test words key k ≡ test (set_word id new words) key k
      same k ne = let other : (id == k) ≡ false = ground (arith, ne) in rw other refl

      now : home (base ∷ ks) (set_word id new words id) ≡ base
      now = rw (==_refl id) (home-latest base new ks newer)

  -- One id less in the file that it comes from.
  pub live_count-older :
      (key : ℕ)
      → key < base
      → live_count n (base ∷ ks) (set_word id new words) key ≡ (
          if key == home ks (words id)
          then live_count n (base ∷ ks) words key - 1
          else live_count n (base ∷ ks) words key)
  unfolding live_count test
  live_count-older key h = ground (arith, change key)

  pub live_count-pos : 0 < live_count n (base ∷ ks) words (home ks (words id))
  unfolding live_count test
  live_count-pos =
      count_below-pos n id (test words (home ks (words id))) in_bound
        (rw (home-older base (words id) ks older) (==_refl (home ks (words id))))

  -- One more in the new file.
  pub live_count-newest :
      IsDescending (base ∷ ks)
      → live_count n (base ∷ ks) (set_word id new words) base
        ≡ live_count n (base ∷ ks) words base + 1
  unfolding live_count test
  live_count-newest d = ground (arith, change base, home_lt base (words id) ks d.0 d.1)
