-- ===== src/Tests/Rewrite.antt =====
-- The theorems on maintenance at concrete inputs.
use marble.Prelude.{
  ℕ, ◌+◌, ◌^◌, ◌<◌, ◌≡◌, refl, arith, true, Option, none, some, [], ◌∷◌, ◌++◌, length, ok, ◌==◌,
  if◌then◌else◌,
}
use marble.Prelude.Assoc.{Assoc, lookup}
use marble.Prelude.Bytes.{Bytes, to_le_bytes}
use marble.Crc32.{sum_crc}
use marble.DiskLocation
use marble.Gc.Collect.{Collected, nothing_collected, collect_objects}
use marble.Gc.Collect.Objects.{Collectable}
use marble.Gc.Collect.Survivors.{survivor, kept_object, kept_location, collect_objects-survivors}
use marble.ObjectRecord.{record_bytes}
use marble.Tests.Setup.{crates, config}
use marble.World.{FileAndMetadata}
use marble.WritePath.Layout.{file_bytes}
use marble.Zstd

abbrev old_file : FileAndMetadata
old_file = record {
  file = 0;
  location = record { word = 2 };
  path = none;
  metadata = none;
  live_objects = 1;
  generation = 0;
  rewrite_claim = true;
  synced = true;
  zstd_dict = none;
}

-- The object 3 is where the file has it, and the object 6 has been written again.
abbrev stored_objects : Assoc (Option Bytes)
stored_objects = (3, some (7 ∷ 8 ∷ [])) ∷ (4, none) ∷ (6, some (9 ∷ [])) ∷ []

abbrev words : ℕ → ℕ
words k = if k == 3 then 2 else 900

abbrev as_is : Bytes → Bytes
as_is bytes = bytes

collectable : Collectable crates config words old_file none as_is stored_objects
unfolding Zstd.decompress
collectable = (
  (omega arith, omega arith, omega arith, omega arith, refl),
  ((omega arith, omega arith, omega arith, omega arith, refl), tt),
)

based : 0 < DiskLocation.lsn old_file.location
unfolding DiskLocation.lsn
based = omega arith

bounded :
    length (file_bytes sum_crc as_is stored_objects) + DiskLocation.lsn old_file.location < 2 ^ 63
unfolding file_bytes record_bytes to_le_bytes DiskLocation.lsn
bounded = omega arith

collect_objects-survivors_example :
    (c : Collected) × (collect_objects crates config words old_file none
        (file_bytes sum_crc as_is stored_objects ++ (1 ∷ []))
        (length (file_bytes sum_crc as_is stored_objects))
        (length (file_bytes sum_crc as_is stored_objects))
        0
        nothing_collected
      ≡ ok c)
    × ((k : ℕ)
        → (lookup k c.batch
            ≡ kept_object
                (survivor crates config words old_file none as_is k 0 stored_objects)
                none)
          × (lookup k c.old_locations
              ≡ kept_location
                  (survivor crates config words old_file none as_is k 0 stored_objects)
                  none))
collect_objects-survivors_example =
    collect_objects-survivors crates config words old_file none as_is stored_objects (1 ∷ [])
      (omega arith) collectable based bounded
