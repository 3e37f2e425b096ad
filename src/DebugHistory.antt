-- ===== src/DebugHistory.antt =====
-- src/debug_history.rs: a check of the `runtime_validation` feature that each object is added to a
-- location once, and removed from it once and only after that. A set of locations is the list of its
-- elements.
pub mod Order
use marble.Prelude.{
  ℕ, Bool, true, false, not, ◌||◌, Option, none, some, List, [], ◌∷◌, Outcome, ok, panic, assert,
  unwrap, ◌>>=◌, ◌>>◌, ◌==◌, if◌then◌else◌,
}
use marble.Prelude.Assoc.{Assoc, lookup, insert}
use marble.DiskLocation.{DiskLocation}

abbrev pub Locations : Type 0
Locations = List DiskLocation

pub record DebugHistory : Type 0 where
  pub adds : Assoc Locations
  pub removes : Assoc Locations

abbrev pub no_history : DebugHistory
no_history = record { adds = []; removes = [] }

-- `HashSet::contains`
unfoldable pub contains : DiskLocation → Locations → Bool
contains location [] = false
contains location (l ∷ ls) = l.word == location.word || contains location ls

-- The set that `get` or `entry(..).or_default()` gives.
abbrev pub or_empty : Option Locations → Locations
or_empty none = []
or_empty (some ls) = ls

-- `entry(object_id).or_default().insert(location)`, with whether the location is new.
unfoldable pub insert_location : ℕ → DiskLocation → Assoc Locations → Assoc Locations × Bool
unfolding contains lookup insert
insert_location object_id location m =
    let entry = or_empty (lookup object_id m) in
    if contains location entry
    then (insert object_id entry m, false)
    else (insert object_id (location ∷ entry) m, true)

unfoldable pub mark_add : ℕ → DiskLocation → DebugHistory → Outcome DebugHistory
unfolding contains insert_location
mark_add object_id location h = do
  assert (not (contains location (or_empty (lookup object_id h.removes))))
  let (adds, new_addition) = insert_location object_id location h.adds
  assert new_addition
  ok (record h { adds = adds })

-- `self.adds[&object_id]` panics on an id that was never added.
unfoldable pub mark_remove : ℕ → DiskLocation → DebugHistory → Outcome DebugHistory
unfolding contains insert_location
mark_remove object_id location h = do
  added ← unwrap (lookup object_id h.adds)
  assert (contains location added)
  let (removes, new_addition) = insert_location object_id location h.removes
  assert new_addition
  ok (record h { removes = removes })
