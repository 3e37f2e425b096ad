-- ===== src/Store.antt =====
-- What the store promises: a map from ids to bytes (the example of src/lib.rs, and the model in
-- fuzz/fuzz_targets/fuzz_model.rs). `IsStore` says that a state of the program holds such a map.
pub mod Read
pub mod Claimed
pub mod Prune
pub mod Pruned
pub mod Table
pub mod Names
pub mod Moved
pub mod After
pub mod Appended
pub mod Write
pub mod Batches
pub mod Empty
pub mod Promise
pub mod Durable
pub mod Sessions
use marble.Prelude.{
  ℕ, ◌+◌, ◌*◌, ◌^◌, ◌≤◌, ◌<◌, ◌≡◌, Option, none, some, [], ◌∷◌, ◌++◌, All, length, ok,
}
use marble.Prelude.Bytes.{Bytes}
use marble.Disk
use marble.Disk.Calm.{IsCalm}
use marble.DiskLocation.{DiskLocation}
use marble.FileMap.Counts.{Counted, live_count}
use marble.FileMap.Homes.{Fams, keys, IsDescending, home, core_from}
use marble.FileMap.Moves.{AreSmall}
use marble.ObjectRecord.{record_bytes}
use marble.Trailer.{ZstdDict}
use marble.World.{FileAndMetadata, Crates, World}
use marble.WritePath.Batch.{tmp_file_name}
use marble.Zstd

abbrev pub Objects : Type 0
Objects = ℕ → Option Bytes

module _ {T M : Type 0} (crates : Crates T M) where
  open crates use {pages, maps, crc, zstd}

  -- What the word of an id in the location table says of its object: there is none, it was deleted, or
  -- its record lies in the file that the word falls into, where the word says. `limit` bounds the
  -- inodes of files.
  pub data Shows (contents : ℕ → Bytes) (es : Fams) (limit id word : ℕ) (object : Option Bytes)
      : Type 0 where
    absent : word ≡ 0 → object ≡ none → Shows contents es limit id word object
    deleted :
        (lsn : ℕ)
        → word ≡ lsn * 2 + 1
        → 0 < home (keys es) word
        → object ≡ none
        → Shows contents es limit id word object
    stored :
        (file base : ℕ) (location : DiskLocation) (dict : ZstdDict) (front output raw back : Bytes)
        → core_from word es ≡ some (file, location, dict)
        → 0 < home (keys es) word
        → file < limit
        → location.word ≡ base * 2
        → word ≡ (length front + base) * 2
        → contents file ≡ front ++ (record_bytes crc id output ++ back)
        → length output < 2 ^ 63
        → Zstd.decompress zstd dict output ≡ ok raw
        → object ≡ some raw
        → Shows contents es limit id word object

  -- The greatest word that a location can have so far.
  abbrev pub top : World T M → ℕ
  top w = (w.next_file_lsn + 2 ^ 62) * 2

  -- The files come latest first, below the end of the log; each counts the ids that the table sends to
  -- it; every id fits a word and shows its object; and the next names of temporary files are free.
  pub record IsStore (objects : Objects) (w : World T M) : Type 0 where
    pub calm : IsCalm w.disk
    pub descending : IsDescending (keys (maps.entries w.fams))
    pub below : All (λ k. k < top w) (keys (maps.entries w.fams))
    pub counted :
        Counted
          (live_count (2 ^ 64) (keys (maps.entries w.fams)) (pages.get w.location_table))
          (maps.entries w.fams)
    pub small : AreSmall (maps.entries w.fams)
    pub ids : (k : ℕ) → 2 ^ 64 ≤ k → pages.get w.location_table k ≡ 0
    pub words : (k : ℕ) → pages.get w.location_table k < top w
    pub shows :
        (k : ℕ)
        → Shows w.disk.contents
            (maps.entries w.fams)
            w.disk.next_inode
            k
            (pages.get w.location_table k)
            (objects k)
    pub names : (n : ℕ) → w.tmp_counter ≤ n → Disk.find_name (tmp_file_name n) w.disk.names ≡ none
