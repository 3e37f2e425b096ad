-- ===== src/Tests/Prune.antt =====
-- The theorem on the files that are pruned, at a concrete state.
use marble.Prelude.{
  ℕ, ◌+◌, ◌*◌, ◌^◌, ◌≡◌, refl, sym, arith, false, true, none, some, [], ◌∷◌, ok, ◌==◌,
}
use marble.Prelude.Counting.{count_below-none}
use marble.ConcurrentMap.{Entries}
use marble.Disk.{find_name, unlink}
use marble.DiskLocation.{DiskLocation}
use marble.FileMap.Counts.{live_count}
use marble.FileMap.Homes.{home}
use marble.FileMap.Prune.{prune_empty_files}
use marble.Metadata.{Metadata, to_file_name}
use marble.Store.{absent, IsStore}
use marble.Store.Empty.{no_objects, new_store}
use marble.Store.Names.{find_name-finished}
use marble.Store.Pruned.{prune_empty_files-IsStore}
use marble.Tests.Setup.{crates, start}
use marble.World.{FileAndMetadata, World}

abbrev metadata : Metadata
metadata = record {
  lsn = 2 ^ 62 + 1;
  trailer_offset = 0;
  present_objects = 1;
  generation = 0;
  file_size = 36;
}

abbrev location : DiskLocation
location = record { word = (2 ^ 62 + 1) * 2 }

-- A file that nothing points at.
abbrev empty_fam : FileAndMetadata
empty_fam = record {
  file = 0;
  location = location;
  path = some (to_file_name metadata);
  metadata = some metadata;
  live_objects = 0;
  generation = 0;
  rewrite_claim = false;
  synced = true;
  zstd_dict = none;
}

abbrev W : Type 0
W = World (ℕ → ℕ) (Entries FileAndMetadata)

abbrev with_empty : W
with_empty = record (new_store crates start) {
  fams = (location, empty_fam) ∷ [];
  next_file_lsn = 2;
  disk = record start.disk { next_inode = 1; names = (to_file_name metadata, 0) ∷ [] };
}

none_counted : live_count (2 ^ 64) (location.word ∷ []) (λ k. 0) location.word ≡ 0
unfolding live_count home
none_counted =
    count_below-none (2 ^ 64) (λ k. home (location.word ∷ []) 0 == location.word) (λ k. refl)

with_empty-IsStore : IsStore crates no_objects with_empty
unfolding find_name unlink
with_empty-IsStore = record {
  calm = refl;
  descending = (omega arith, tt, tt);
  below = (omega arith, tt);
  counted = (sym none_counted, tt);
  small = (omega arith, tt);
  ids = λ k large. refl;
  words = λ k. omega arith;
  shows = λ k. absent refl refl;
  names = λ n le. find_name-finished n 0 metadata [] refl;
}

prune_empty_files-IsStore_example :
    (w' : W) × (prune_empty_files crates with_empty ≡ (ok tt, w')) × IsStore crates no_objects w'
prune_empty_files-IsStore_example =
    prune_empty_files-IsStore crates no_objects with_empty with_empty-IsStore
