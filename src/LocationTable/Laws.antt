-- ===== src/LocationTable/Laws.antt =====
-- What one access to the location table does, whatever it finds.
use marble.Prelude.{
  ℕ, ◌<◌, max, some, none, ◌⊎◌, inl, inr, ok, panic, ◌≡◌, ◌≢◌, arith, ◌==◌, if◌then◌else◌,
  Bool-cases, ltb,
}
use marble.DiskLocation
use marble.DiskLocation.{DiskLocation}
use marble.LocationTable
use marble.PageTable.{PageTable}

module _ {T : Type 0} (pages : PageTable T) where
  open pages use {get, set, get-set}

  -- `t'` is `t` with the word `w` at `id`.
  abbrev pub Updated : T → ℕ → ℕ → T → Type 0
  Updated t id w t' = (j : ℕ) → get t' j ≡ (if id == j then w else get t j)

  abbrev pub Unchanged : T → T → Type 0
  Unchanged t t' = (j : ℕ) → get t' j ≡ get t j

module _ {T : Type 0} (pages : PageTable T) (t : T) (id : ℕ) where
  open pages use {get, set, get-set}

  pub load-store :
      (l : DiskLocation) (j : ℕ)
      → 0 < l.word
      → LocationTable.load pages (LocationTable.store pages t id l) j
        ≡ (if id == j then some l else LocationTable.load pages t j)
  unfolding LocationTable.load LocationTable.store DiskLocation.from_raw DiskLocation.to_raw
  load-store l j p = ground (arith, get-set t id j l.word)

  -- A `fetch_max` has three outcomes. Over an earlier word it writes the new location and returns
  -- `Ok` with what was there; over a later one it changes no entry and returns `Err` with what is
  -- there; over the same word it panics.
  pub fetch_max_cases :
      (l : DiskLocation)
      → ((get t id < l.word)
          × ((t' : T) × (LocationTable.fetch_max pages t id l
                ≡ ok (t', inl (LocationTable.load pages t id)))
              × Updated pages t id l.word t'))
        ⊎ ((l.word < get t id)
            × ((t' : T) × (LocationTable.fetch_max pages t id l
                  ≡ ok (t', inr (LocationTable.load pages t id)))
                × Unchanged pages t t'))
        ⊎ ((get t id ≡ l.word) × (LocationTable.fetch_max pages t id l ≡ panic))
  unfolding LocationTable.fetch_max LocationTable.load DiskLocation.to_raw
  fetch_max_cases l = elim (Bool-cases (ltb (get t id) l.word)) [
    | inl e ↦ inl (
      ground arith,
      (
        set t id (max (get t id) l.word),
        ground arith,
        λ j. ground (arith, get-set t id j (max (get t id) l.word)),
      ),
    )
    | inr e ↦ elim (Bool-cases (get t id == l.word)) [
      | inl e' ↦ inr (inr (ground arith, ground arith))
      | inr e' ↦ inr (
          inl (
            ground arith,
            (
              set t id (max (get t id) l.word),
              ground arith,
              λ j. ground (arith, get-set t id j (max (get t id) l.word)),
            ),
          ))
    ]
  ]

  -- A `cas` has three outcomes. It writes the new location exactly when the old one is there; else
  -- it changes nothing and returns the location that it found, and panics where there is none.
  pub cas_cases :
      (old new : DiskLocation)
      → ((get t id ≡ old.word)
          × ((t' : T) × (LocationTable.cas pages t id old new ≡ ok (t', inl tt))
              × Updated pages t id new.word t'))
        ⊎ ((get t id ≢ old.word)
            × ((current : DiskLocation) × (LocationTable.load pages t id ≡ some current)
                × (LocationTable.cas pages t id old new ≡ ok (t, inr current))))
        ⊎ ((get t id ≢ old.word)
            × (LocationTable.load pages t id ≡ none)
            × (LocationTable.cas pages t id old new ≡ panic))
  unfolding LocationTable.cas LocationTable.load DiskLocation.from_raw DiskLocation.to_raw
  cas_cases old new = elim (Bool-cases (get t id == old.word)) [
    | inl e ↦ inl (ground arith, (set t id new.word, ground arith, λ j. get-set t id j new.word))
    | inr e ↦ elim (Bool-cases (get t id == 0)) [
      | inl e' ↦ inr (inr (ground arith, ground arith, ground arith))
      | inr e' ↦ inr (inl (ground arith, (record { word = get t id }, ground arith, ground arith)))
    ]
  ]
