-- ===== src/WritePath/Install.antt =====
-- Step 3 of `write_batch_inner` (src/writepath.rs): the new locations go into the location table, by
-- `cas` where maintenance knows the old location, and by `fetch_max` for the batches of users.
pub mod Exact
pub mod Undo
use marble.Prelude.{
  ℕ, ◌+◌, Option, none, some, List, [], ◌∷◌, ◌++◌, ◌⊎◌, inl, inr, Outcome, ok, panic, unwrap, ◌>>=◌,
}
use marble.Prelude.Assoc.{Assoc, lookup, remove}
use marble.DiskLocation.{DiskLocation}
use marble.LocationTable
use marble.PageTable.{PageTable}
use marble.RelativeDiskLocation
use marble.RelativeDiskLocation.{RelativeDiskLocation}

pub record Installed : Type 0 where
  pub replaced_locations : Assoc DiskLocation
  pub failed_gc_locations : List ℕ
  pub subtract_from_len : ℕ

abbrev pub nothing_installed : Installed
nothing_installed = record {
  replaced_locations = [];
  failed_gc_locations = [];
  subtract_from_len = 0;
}

abbrev pub replace : ℕ → DiskLocation → Installed → Installed
replace object_id old done = record done {
  replaced_locations = done.replaced_locations ++ ((object_id, old) ∷ []);
}

-- The outcome of a `cas`.
abbrev pub after_cas : ℕ → DiskLocation → Installed → Unit {0} ⊎ DiskLocation → Installed
after_cas object_id old done (inl _) = replace object_id old done
after_cas object_id old done (inr _) = record done {
  failed_gc_locations = done.failed_gc_locations ++ (object_id ∷ []);
  subtract_from_len = done.subtract_from_len + 1;
}

-- The outcome of a `fetch_max`.
abbrev pub after_fetch_max : ℕ → Installed → Option DiskLocation ⊎ Option DiskLocation → Installed
after_fetch_max object_id done (inl (some old)) = replace object_id old done
after_fetch_max object_id done (inl none) = done
after_fetch_max object_id done (inr _) = record done {
  subtract_from_len = done.subtract_from_len + 1;
}

module _ {T : Type 0} (pages : PageTable T) (old_locations : Assoc DiskLocation) where
  unfoldable pub install_one : T → ℕ → DiskLocation → Installed → Outcome (T × Installed)
  unfolding LocationTable.cas LocationTable.fetch_max lookup
  install_one t object_id new_location done = elim (lookup object_id old_locations) [
    | some old_location ↦ LocationTable.cas pages t object_id old_location new_location >>= λ r.
        ok (r.0, after_cas object_id old_location done r.1)
    | none ↦ LocationTable.fetch_max pages t object_id new_location >>= λ r.
        ok (r.0, after_fetch_max object_id done r.1)
  ]

  -- `base_lsn` is the location of the new file.
  unfoldable pub install : ℕ → T → Assoc RelativeDiskLocation → Installed → Outcome (T × Installed)
  unfolding install_one RelativeDiskLocation.to_absolute
  install base_lsn t [] done = ok (t, done)
  install base_lsn t ((object_id, new_relative_location) ∷ rest) done = do
    new_location ← RelativeDiskLocation.to_absolute new_relative_location base_lsn
    (t', done') ← install_one t object_id new_location done
    install base_lsn t' rest done'

module _ {T : Type 0} (pages : PageTable T) where
  -- The loop that undoes the installation when the file cannot be finished: the results of the `cas`
  -- are ignored.
  unfoldable pub undo : ℕ → Assoc RelativeDiskLocation → T → Assoc DiskLocation → Outcome T
  unfolding lookup RelativeDiskLocation.to_absolute LocationTable.cas
  undo base_lsn new_relative_locations t [] = ok t
  undo base_lsn new_relative_locations t ((object_id, old_location) ∷ rest) =
      elim (lookup object_id new_relative_locations) [
        | none ↦ panic
        | some new_relative_location ↦
            RelativeDiskLocation.to_absolute new_relative_location base_lsn >>= λ new_location.
            LocationTable.cas pages t object_id new_location old_location >>= λ r.
            undo base_lsn new_relative_locations r.0 rest
      ]

-- `new_relative_locations.remove(..).unwrap()` for each copy that maintenance could not install
unfoldable pub remove_failed :
    List ℕ → Assoc RelativeDiskLocation → Outcome (Assoc RelativeDiskLocation)
unfolding remove lookup
remove_failed [] locations = ok locations
remove_failed (object_id ∷ rest) locations = do
  removed ← unwrap (lookup object_id locations)
  remove_failed rest (remove object_id locations)
