-- ===== src/Recovery/Locations.antt =====
-- The page table that `open` (src/recovery.rs) builds from the trailers.
use marble.Prelude.{ℕ, none, some, [], ◌∷◌, Outcome, ok, assert, ◌>>=◌, ◌>>◌, ltb}
use marble.Prelude.Assoc.{Assoc, lookup, insert}
use marble.DiskLocation
use marble.DiskLocation.{DiskLocation}
use marble.Recovery.Directory.{masked_lsn}
use marble.RelativeDiskLocation
use marble.Trailer.{Locations}

-- A location goes into the page table, and must come later in the log than the one it replaces.
unfoldable pub recover_one : ℕ → DiskLocation → Assoc DiskLocation → Outcome (Assoc DiskLocation)
recover_one object_id location table = elim (lookup object_id table) [
  | none ↦ ok (insert object_id location table)
  | some old ↦
      assert (ltb (masked_lsn (DiskLocation.lsn old)) (masked_lsn (DiskLocation.lsn location)))
      >> ok (insert object_id location table)
]

-- The loop over a trailer.
unfoldable pub recover_locations : ℕ → Locations → Assoc DiskLocation → Outcome (Assoc DiskLocation)
recover_locations lsn [] table = ok table
recover_locations lsn ((object_id, relative_loc) ∷ rest) table = do
  location ← RelativeDiskLocation.to_absolute relative_loc lsn
  table' ← recover_one object_id location table
  recover_locations lsn rest table'
