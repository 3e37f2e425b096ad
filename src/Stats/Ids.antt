-- ===== src/Stats/Ids.antt =====
-- Which object ids `free_object_ids` and `allocated_object_ids` give.
use marble.Prelude.{
  ℕ, zero, suc, ◌+◌, ◌≤◌, ◌<◌, ◌≡◌, ap, ◌∙◌, arith, Bool, true, false, not, ◌&&◌, ◌||◌, Option,
  some, List, [], ◌∷◌, ◌++◌, ◌==◌, ltb, leb, le→leb, ==_refl, ok, ◌*◌, ◌^◌,
}
use marble.DiskLocation
use marble.DiskLocation.{DiskLocation}
use marble.DiskLocation.Laws.{new_lem}
use marble.LocationTable
use marble.LocationTable.Laws.{load-store}
use marble.Stats.{ids_below, is_none, is_some, free_object_ids, allocated_object_ids}
use marble.World.{Crates, World}

abbrev pub elem : ℕ → List ℕ → Bool
elem k [] = false
elem k (x ∷ xs) = x == k || elem k xs

elem-snoc : (k x : ℕ) (xs : List ℕ) → elem k (xs ++ (x ∷ [])) ≡ (elem k xs || x == k)
elem-snoc k x [] = ground arith
elem-snoc k x (y ∷ xs) = ground (arith, elem-snoc k x xs)

module _ {T M : Type 0} (crates : Crates T M) where
  open crates use {pages}

  elem-ids_below :
      (test : Option DiskLocation → Bool) (t : T) (k n : ℕ)
      → elem k (ids_below crates test t n) ≡ (ltb k n && test (LocationTable.load pages t k))
  unfolding ids_below
  elem-ids_below test t k zero = ground arith
  elem-ids_below test t k (suc n) = ground (
    arith,
    elem-ids_below test t k n,
    elem-snoc k n (ids_below crates test t n),
    λ (e : n ≡ k). ap (λ i. test (LocationTable.load pages t i)) e,
  )

  -- A write to the location table.
  abbrev pub stored : World T M → ℕ → DiskLocation → World T M
  stored w k l = record w { location_table = LocationTable.store pages w.location_table k l }

  -- Up to the greatest id that was written, each id is given by exactly one of the two methods, and no
  -- id beyond it by either. The free ones are those without a location.
  pub free-allocated :
      (w : World T M) (k : ℕ)
      → (elem k (free_object_ids crates w).1
          ≡ (leb k w.max_object_id && is_none (LocationTable.load pages w.location_table k)))
        × (elem k (allocated_object_ids crates w)
            ≡ (leb k w.max_object_id && not (elem k (free_object_ids crates w).1)))
  unfolding free_object_ids allocated_object_ids
  free-allocated w k = ground (
    arith,
    elem-ids_below is_none w.location_table k (suc w.max_object_id),
    elem-ids_below is_some w.location_table k (suc w.max_object_id),
  )

  -- Where the table stores a delete at an id that is no greater than the greatest one, the id is not
  -- free but allocated.
  pub deleted_is_allocated :
      (w : World T M) (k lsn : ℕ)
      → k ≤ w.max_object_id
      → lsn < 2 ^ 63
      → (l : DiskLocation) × (DiskLocation.new lsn true ≡ ok l)
        × (elem k (free_object_ids crates (stored w k l)).1 ≡ false)
        × (elem k (allocated_object_ids crates (stored w k l)) ≡ true)
  deleted_is_allocated w k lsn le fits =
      let l : DiskLocation = record { word = lsn * 2 + 1 } in
      let at : LocationTable.load pages (LocationTable.store pages w.location_table k l) k
          ≡ some l =
        load-store pages w.location_table k l k (omega arith) ∙ rw (==_refl k) in
      let (free, taken) = free-allocated (stored w k l) k in
      let none_free : elem k (free_object_ids crates (stored w k l)).1 ≡ false =
        free ∙ rw (at, le→leb k w.max_object_id le) in
      (
        l,
        new_lem lsn true fits (omega arith),
        none_free,
        taken ∙ rw (none_free, le→leb k w.max_object_id le),
      )
