-- ===== src/LocationTable.antt =====
-- src/location_table.rs: the map from object ids to locations. Each entry is one atomic word, and 0
-- is no location. Each operation here is one atomic access, so threads that share the table are
-- sequences of operations.
pub mod Laws
pub mod Races
use marble.Prelude.{
  ℕ, max, Option, some, none, ◌⊎◌, inl, inr, Outcome, ok, panic, assert, ◌>>=◌, ◌>>◌, not, ltb,
  ◌==◌, if◌then◌else◌,
}
use marble.DiskLocation
use marble.DiskLocation.{DiskLocation}
use marble.PageTable.{PageTable}

module _ {T : Type 0} (pages : PageTable T) where
  open pages use {get, set}

  unfoldable pub load : T → ℕ → Option DiskLocation
  unfolding DiskLocation.from_raw
  load t object_id = DiskLocation.from_raw (get t object_id)

  unfoldable pub store : T → ℕ → DiskLocation → T
  unfolding DiskLocation.to_raw
  store t object_id location = set t object_id (DiskLocation.to_raw location)

  -- `Ok(())` is `inl tt`. `Err` unwraps the word that was found.
  unfoldable pub cas : T → ℕ → DiskLocation → DiskLocation → Outcome (T × (Unit {0} ⊎ DiskLocation))
  unfolding DiskLocation.from_raw DiskLocation.to_raw
  cas t object_id old_location new_location =
      let found = get t object_id in
      if found == DiskLocation.to_raw old_location
      then ok (set t object_id (DiskLocation.to_raw new_location), inl tt)
      else elim (DiskLocation.from_raw found) [ none ↦ panic | some r ↦ ok (t, inr r) ]

  -- `Ok(old)` is `inl old` and `Err(current)` is `inr current`.
  unfoldable pub fetch_max :
      T → ℕ → DiskLocation → Outcome (T × (Option DiskLocation ⊎ Option DiskLocation))
  unfolding DiskLocation.from_raw DiskLocation.to_raw
  fetch_max t object_id new_location =
      let max_result = get t object_id in
      let t' = set t object_id (max max_result (DiskLocation.to_raw new_location)) in
      if ltb max_result (DiskLocation.to_raw new_location)
      then ok (t', inl (DiskLocation.from_raw max_result))
      else do
        assert (not (max_result == DiskLocation.to_raw new_location))
        ok (t', inr (DiskLocation.from_raw max_result))
