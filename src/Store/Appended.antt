-- ===== src/Store/Appended.antt =====
-- What a user's batch leaves on the disk and in the shared state (src/writepath.rs): one more file, the
-- latest of the log.
use marble.Prelude.{ℕ, ◌+◌, ◌*◌, ◌^◌, ◌<◌, ◌≡◌, ◌∷◌, ◌++◌, length}
use marble.Prelude.Assoc.{Assoc, lookup}
use marble.Prelude.Bytes.{Bytes}
use marble.Disk.{unlink}
use marble.DiskLocation.{DiskLocation}
use marble.FileMap.Decrement.{decremented_all}
use marble.FileMap.Homes.{core}
use marble.FileMap.Latest.{batch_location}
use marble.Metadata.{Metadata, to_file_name}
use marble.Trailer.{Locations, dict_bytes, trailer_bytes}
use marble.World.{FileAndMetadata, Crates, World}
use marble.WritePath.Batch.{Compression}
use marble.WritePath.Install.Exact.{installed_word}

module _ {T M : Type 0} (crates : Crates T M) where
  open crates use {pages, maps, crc}

  pub record IsAppended (w w' : World T M) (bytes : Bytes) (locations : Locations)
      (compression : Compression) : Type 0 where
    pub metadata : Metadata
    pub fam : FileAndMetadata
    pub olds : Assoc DiskLocation
    pub lsn : metadata.lsn ≡ w.next_file_lsn + 2 ^ 62
    pub trailer_offset : metadata.trailer_offset ≡ length bytes
    pub file_size :
        metadata.file_size
        ≡ length bytes
          + 4
          + 8
          + 8
          + 16 * length locations
          + length (dict_bytes compression.dict_bytes_opt)
    pub present_objects : metadata.present_objects < 2 ^ 64
    pub generation : metadata.generation ≡ 0
    pub core :
        core fam ≡ (w.disk.next_inode, batch_location w.next_file_lsn, compression.decompressor)
    pub entries :
        maps.entries w'.fams
        ≡ (batch_location w.next_file_lsn, fam) ∷ decremented_all olds (maps.entries w.fams)
    pub words :
        (k : ℕ)
        → pages.get w'.location_table k
          ≡ installed_word pages
              (w.next_file_lsn + 2 ^ 62)
              (lookup k locations)
              (pages.get w.location_table k)
    pub holds :
        w'.disk.contents w.disk.next_inode
        ≡ bytes ++ trailer_bytes crc locations compression.dict_bytes_opt
    pub kept : (i : ℕ) → i < w.disk.next_inode → w'.disk.contents i ≡ w.disk.contents i
    pub inodes : w'.disk.next_inode ≡ w.disk.next_inode + 1
    pub names :
        w'.disk.names
        ≡ (to_file_name metadata, w.disk.next_inode) ∷ unlink (to_file_name metadata) w.disk.names
    pub next : w'.next_file_lsn ≡ w.next_file_lsn + length bytes + 1
