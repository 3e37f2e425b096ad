-- ===== src/Store/Durable.antt =====
-- What is on the disk of a store: the files of its batches, from which a restart (src/recovery.rs)
-- builds the state again. `IsDurable` says that a state agrees with its files.
pub mod Words
pub mod Listing
pub mod Found
pub mod Files
pub mod Install
pub mod Restart
pub mod Write
pub mod Crash
pub mod Corrupt
use marble.Prelude.{ℕ, ◌+◌, ◌*◌, ◌^◌, ◌≤◌, ◌<◌, ◌≡◌, none, List, [], ◌∷◌, ◌++◌, length, map}
use marble.Prelude.Assoc.{lookup, Distinct}
use marble.Prelude.Bytes.{Bytes}
use marble.Crc32.{Crc32}
use marble.DiskLocation.{DiskLocation}
use marble.FileMap.Homes.{Fams, keys, core_from}
use marble.Metadata.{Metadata, to_file_name}
use marble.Metadata.RoundTrip.{IsWide}
use marble.PageTable.{PageTable}
use marble.Recovery.Open.{recovered_fam}
use marble.Store.Table.{IsWithin}
use marble.Trailer.{Locations, trailer_bytes}
use marble.World.{Crates, World}
use marble.WritePath.Install.Exact.{installed_word}

-- The file of a batch: its place in the log, the bytes of its objects and their relative locations.
pub record LogFile : Type 0 where
  pub base : ℕ
  pub file : ℕ
  pub metadata : Metadata
  pub objects : Bytes
  pub locations : Locations

abbrev pub file_lsn : LogFile → ℕ
file_lsn f = f.base + 2 ^ 62

abbrev pub file_location : LogFile → DiskLocation
file_location f = record { word = file_lsn f * 2 }

-- The file is whole and has no dictionary, its metadata fits its name, and it is no longer than
-- `most`.
pub record IsWhole (crc : Crc32) (contents : ℕ → Bytes) (limit most : ℕ) (f : LogFile)
    : Type 0 where
  pub inode : f.file < limit
  pub holds : contents f.file ≡ f.objects ++ trailer_bytes crc f.locations none
  pub lsn : f.metadata.lsn ≡ file_lsn f
  pub trailer_offset : f.metadata.trailer_offset ≡ length f.objects
  pub file_size : f.metadata.file_size ≡ length f.objects + (20 + length f.locations * 16)
  pub wide : IsWide f.metadata
  pub within : IsWithin (length f.objects) f.locations
  pub distinct : Distinct f.locations
  pub size : f.metadata.file_size ≤ most

-- The files, latest first, one behind the other in the log, which ends at `next`.
abbrev pub IsLog : Crc32 → (ℕ → Bytes) → ℕ → ℕ → ℕ → List LogFile → Type 0
IsLog crc contents limit most next [] = 0 < next
IsLog crc contents limit most next (f ∷ fs) =
    (f.base + length f.objects + 1 ≤ next)
    × IsWhole crc contents limit most f
    × IsLog crc contents limit most f.base fs

-- The word that the latest file with the id has for it.
unfoldable pub log_word : {T : Type 0} → PageTable T → List LogFile → ℕ → ℕ
unfolding lookup
log_word pages [] k = 0
log_word pages (f ∷ fs) k =
    installed_word pages (file_lsn f) (lookup k f.locations) (log_word pages fs k)

abbrev pub directory : List LogFile → List (Bytes × ℕ)
directory fs = map (λ f. (to_file_name f.metadata, f.file)) fs

module _ {T M : Type 0} (crates : Crates T M) where
  open crates use {pages, maps, crc}

  -- The entries of the file map after the loop over the files.
  abbrev pub recovered : List LogFile → Fams
  recovered fs =
      map
        (λ f. (
          file_location f,
          recovered_fam crates f.metadata (to_file_name f.metadata) f.file (file_location f) none,
        ))
        fs

  -- The directory has the files of the log, the file map has their locations and handles, and the
  -- location table has what they say.
  pub record IsDurable (most : ℕ) (fs : List LogFile) (w : World T M) : Type 0 where
    pub log : IsLog crc w.disk.contents w.disk.next_inode most w.next_file_lsn fs
    pub names : w.disk.names ≡ directory fs
    pub keys : keys (maps.entries w.fams) ≡ keys (recovered fs)
    pub cores : (word : ℕ) → core_from word (maps.entries w.fams) ≡ core_from word (recovered fs)
    pub words : (k : ℕ) → pages.get w.location_table k ≡ log_word pages fs k
