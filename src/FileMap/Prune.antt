-- ===== src/FileMap/Prune.antt =====
-- `FileMap::prune_empty_files`: drops the files without live objects, and with them their files.
use marble.Prelude.{true, none, some, List, [], ◌∷◌, ◌++◌, ◌==◌, if◌then◌else◌}
use marble.ConcurrentMap.{Entries}
use marble.DiskLocation.{DiskLocation}
use marble.Exec.{Exec, ◌>>=◌, ◌>>◌, pure, gets, modify}
use marble.FileMap.{set_fam, take_fam, drop_fam, drop_claims}
use marble.World.{FileAndMetadata, Crates, World}

module _ {T M : Type 0} (crates : Crates T M) where
  open crates use {maps}

  -- The first loop: claims every empty file that has a path and that nobody has claimed.
  unfoldable pub mark_empty :
      Entries FileAndMetadata → List DiskLocation → Exec (World T M) (List DiskLocation)
  mark_empty [] marked = pure marked
  mark_empty ((location, fam) ∷ rest) marked = elim fam.path [
    | none ↦ mark_empty rest marked
    | some path ↦
        if fam.live_objects == 0
        then (modify (set_fam crates location (record fam { rewrite_claim = true }))
            >> mark_empty rest (if fam.rewrite_claim then marked else marked ++ (location ∷ [])))
        else mark_empty rest marked
  ]

  -- The second loop. A record that leaves the map is dropped.
  unfoldable pub remove_fams : List DiskLocation → Exec (World T M) (Unit {0})
  unfolding take_fam drop_fam
  remove_fams [] = pure tt
  remove_fams (location ∷ rest) = do
    fam ← take_fam crates location
    drop_fam crates fam
    remove_fams rest

  unfoldable pub prune_empty_files : Exec (World T M) (Unit {0})
  unfolding mark_empty remove_fams drop_claims
  prune_empty_files = do
    fams ← gets λ w. maps.entries w.fams
    marked ← mark_empty fams []
    remove_fams marked
    drop_claims crates marked
