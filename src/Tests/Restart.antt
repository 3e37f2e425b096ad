-- ===== src/Tests/Restart.antt =====
-- The theorems on recovery at concrete inputs.
use marble.Prelude.{
  none, Option, ◌+◌, ◌^◌, length, ◌>>=◌, ℕ, ◌<◌, ◌≡◌, refl, arith, true, false, some, [], ◌∷◌, ok,
}
use mathlib.Core.List.{Perm}
use marble.Prelude.Assoc.{Assoc, lookup}
use marble.ConcurrentMap.{Entries}
use marble.Disk
use marble.Disk.{Disk}
use marble.DiskLocation
use marble.DiskLocation.{DiskLocation}
use marble.FileMap.{assign_lsn}
use marble.Recovery.Directory.{masked_lsn, Files, read_storage_directory}
use marble.Recovery.Locations.{recover_locations}
use marble.DiskLocation.Laws.{absolute}
use marble.Recovery.Order.{
  IsLater-none, IsLater-some, at_offset, newest, Follow, recover_locations-newest,
  recover_locations-late_copy,
}
use marble.Recovery.Sorting.{IsSorted}
use marble.Recovery.Scan.{
  Names, scan, finished, AllNew, AreUtf8, with_names, read_storage_directory_lem,
}
use marble.Recovery.Utf8.{is_utf8}
use marble.Tests.Setup.{start, empty_disk, crates, config}
use marble.Crc32.{sum_crc}
use marble.ObjectRecord.{record_bytes}
use marble.Prelude.Bytes.{Bytes, to_le_bytes}
use marble.Recovery.Durable.{IsRecovered, write_objects-recover_locations}
use marble.Trailer.{trailer_bytes, read_trailer_from_buf}
use marble.WritePath.Layout.{file_bytes, Writable}
use marble.WritePath.Objects.{Written, nothing_written, output_object, write_objects}
use marble.Trailer.{Locations}
use marble.World.{FileAndMetadata, World}

-- A temporary file, and a name that says nothing.
abbrev names : Names
names = (b't' ∷ b'm' ∷ b'p' ∷ [], 0) ∷ (b'x' ∷ [], 1) ∷ []

abbrev crashed : World (ℕ → ℕ) (Entries FileAndMetadata)
crashed = record start { disk = record empty_disk { names = names } }

names-AllNew : AllNew [] names
unfolding Disk.same_name
names-AllNew = (tt, ((refl, tt), tt))

names-AreUtf8 : AreUtf8 names
unfolding is_utf8
names-AreUtf8 = (refl, (refl, tt))

read_storage_directory_lem_example :
    (files : Files) × (read_storage_directory crashed
      ≡ (ok files, with_names (finished names) crashed))
    × IsSorted files
    × Perm files (scan crashed.disk.contents names)
read_storage_directory_lem_example =
    read_storage_directory_lem crashed refl names-AllNew names-AreUtf8

-- The table has the object 3, and the trailer the objects 3 and 4.
abbrev table : Assoc DiskLocation
table = (3, record { word = 20 }) ∷ []

abbrev trailer : Locations
trailer = (3, record { word = 0 }) ∷ (4, record { word = 1 }) ∷ []

trailer-Follow : Follow 30 table trailer
unfolding lookup masked_lsn DiskLocation.lsn
trailer-Follow = (
  (
    omega arith,
    omega arith,
    IsLater-some 3 (record { word = 60 }) (record { word = 20 }) table refl (omega arith),
  ),
  ((omega arith, omega arith, IsLater-none 4 (record { word = 61 }) table refl), tt),
)

recover_locations-newest_example :
    (table' : Assoc DiskLocation) × (recover_locations 30 trailer table ≡ ok table')
    × ((k : ℕ) → lookup k table' ≡ newest 30 (lookup k trailer) (lookup k table))
recover_locations-newest_example =
    recover_locations-newest 30 trailer table ((omega arith, tt), (tt, tt)) trailer-Follow

recover_locations-late_copy_example :
    ((absolute (assign_lsn 200 true) (at_offset 30)).word
      < (absolute (assign_lsn 100 false) (at_offset 50)).word)
    × ((t1 t2 : Assoc DiskLocation) × (recover_locations
            (assign_lsn 100 false)
            ((7, at_offset 50) ∷ [])
            []
          ≡ ok t1)
        × (recover_locations (assign_lsn 200 true) ((7, at_offset 30) ∷ []) t1 ≡ ok t2)
        × (lookup 7 t2 ≡ some (absolute (assign_lsn 200 true) (at_offset 30))))
unfolding lookup
recover_locations-late_copy_example =
    recover_locations-late_copy 100 200 50 30 7 [] (omega arith) (omega arith) (omega arith) refl

abbrev batch : Assoc (Option Bytes)
batch = (4, none) ∷ (3, some (7 ∷ 8 ∷ [])) ∷ (6, some []) ∷ []

abbrev unchanged : Bytes → Bytes
unchanged bytes = bytes

batch-Writable : Writable crates config none 0 unchanged batch
unfolding output_object
batch-Writable = (omega arith, refl, (omega arith, refl, tt))

batch_fits : length (file_bytes sum_crc unchanged batch) + 9 < 2 ^ 63
unfolding file_bytes record_bytes to_le_bytes
batch_fits = omega arith

abbrev fam : FileAndMetadata
fam = record {
  file = 0;
  location = record { word = 18 };
  path = none;
  metadata = none;
  live_objects = 3;
  generation = 0;
  rewrite_claim = true;
  synced = false;
  zstd_dict = none;
}

write_objects-recover_locations_example :
    (written : Written) × (w' : World (ℕ → ℕ) (Entries FileAndMetadata)) × (recovered : Assoc
      DiskLocation)
    × (write_objects crates config none 0 batch nothing_written start ≡ (ok written, w'))
    × ((read_trailer_from_buf sum_crc (trailer_bytes sum_crc written.new_relative_locations none)
          >>= λ t. recover_locations 9 t.0 [])
        ≡ ok recovered)
    × ((k : ℕ)
        → IsRecovered crates config none unchanged fam start 9 w' recovered k (lookup k batch))
unfolding marble.Zstd.decompress
write_objects-recover_locations_example =
    write_objects-recover_locations crates config none unchanged fam start batch none 9 refl refl
      batch-Writable (omega arith) (omega arith) (omega arith) batch_fits (omega arith)
      (λ id raw e. refl)
