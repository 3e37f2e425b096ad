-- ===== src/Store/Durable/Write.antt =====
-- A user's batch (src/writepath.rs) leaves one file more in the log, and a state that agrees with it.
use marble.Prelude.{
  ℕ, ◌+◌, ◌-◌, ◌*◌, ◌^◌, ◌≤◌, ◌<◌, ◌≡◌, refl, ap, ap₂, ◌∙◌, arith, none, some, List, [], ◌∷◌,
  length, leb, if◌then◌else◌,
}
use marble.Prelude.Assoc.{Assoc, lookup, Distinct}
use marble.Prelude.Bytes.{Bytes}
use marble.Crc32.{Crc32}
use marble.Disk
use marble.DiskLocation.{DiskLocation}
use marble.FileMap.Decrement.{decremented_all}
use marble.FileMap.Homes.{Fams, keys, core_from, keys-adjusted}
use marble.FileMap.Latest.{batch_location}
use marble.Metadata.{to_file_name}
use marble.Metadata.RoundTrip.{IsWide}
use marble.Store.Appended.{IsAppended}
use marble.Store.Durable.{LogFile, file_location, IsWhole, IsLog, log_word, recovered, IsDurable}
use marble.Store.Durable.Found.{later-IsNew, unlink-IsNew}
use marble.Store.Moved.{core_from-decremented_all}
use marble.Store.Table.{IsWithin}
use marble.Trailer.{Locations}
use marble.World.{Crates, World}
use marble.WritePath.Batch.{uncompressed}
use marble.WritePath.Install.Exact.{installed_word}

keys-decremented_all :
    (olds : Assoc DiskLocation) (es : Fams) → keys (decremented_all olds es) ≡ keys es
unfolding decremented_all
keys-decremented_all [] es = refl
keys-decremented_all ((id, old) ∷ olds) es =
    keys-decremented_all olds _ ∙ keys-adjusted (λ n. n - 1) old.word es

-- The files of a log stay whole where their bytes are kept.
pub IsLog-kept :
    (crc : Crc32) (contents contents' : ℕ → Bytes) (limit limit' most next : ℕ) (fs : List LogFile)
    → limit ≤ limit'
    → ((i : ℕ) → i < limit → contents' i ≡ contents i)
    → IsLog crc contents limit most next fs
    → IsLog crc contents' limit' most next fs
IsLog-kept crc contents contents' limit limit' most next [] grows kept log = log
IsLog-kept crc contents contents' limit limit' most next (f ∷ fs) grows kept (ends, whole, log) = (
  ends,
  record {
    inode = omega (arith, grows, whole.inode);
    holds = kept f.file whole.inode ∙ whole.holds;
    lsn = whole.lsn;
    trailer_offset = whole.trailer_offset;
    file_size = whole.file_size;
    wide = whole.wide;
    within = whole.within;
    distinct = whole.distinct;
    size = whole.size;
  },
  IsLog-kept crc contents contents' limit limit' most f.base fs grows kept log,
)

module _ {T M : Type 0} (crates : Crates T M) (most : ℕ) (fs : List LogFile) (w w' : World T M)
    (bytes : Bytes) (locations : Locations) where
  open crates use {pages, maps, crc}

  pub IsAppended-IsDurable :
      (a : IsAppended crates w w' bytes locations uncompressed)
      → IsWithin (length bytes) locations
      → Distinct locations
      → length bytes + (20 + length locations * 16) ≤ most
      → w.next_file_lsn + length bytes + 1 < 2 ^ 62
      → IsDurable crates most fs w
      → (f : LogFile) × IsDurable crates most (f ∷ fs) w'
  unfolding core_from log_word
  IsAppended-IsDurable a within distinct size room durable =
      let m = a.metadata in
      let f : LogFile = record {
        base = w.next_file_lsn;
        file = w.disk.next_inode;
        metadata = m;
        objects = bytes;
        locations = locations;
      } in
      let wide : IsWide m = record {
        lsn = omega (arith, a.lsn, room);
        trailer_offset = omega (arith, a.trailer_offset, room);
        present_objects = a.present_objects;
        generation = omega (arith, a.generation);
      } in
      let whole : IsWhole crc w'.disk.contents w'.disk.next_inode most f = record {
        inode = omega (arith, a.inodes);
        holds = a.holds;
        lsn = a.lsn;
        trailer_offset = a.trailer_offset;
        file_size = omega (arith, a.file_size);
        wide = wide;
        within = within;
        distinct = distinct;
        size = omega (arith, a.file_size, size);
      } in
      let new =
        later-IsNew crc w.disk.contents w.disk.next_inode most m w.next_file_lsn w.next_file_lsn fs
          wide a.lsn (omega arith) durable.log in
      (
        f,
        record {
          log = (
            omega (arith, a.next),
            whole,
            IsLog-kept crc w.disk.contents w'.disk.contents w.disk.next_inode w'.disk.next_inode
                most w.next_file_lsn fs (omega (arith, a.inodes)) a.kept durable.log,
          );
          names =
              a.names
              ∙ ap (λ names. (to_file_name m, w.disk.next_inode) ∷ names)
                  (ap (Disk.unlink (to_file_name m)) durable.names ∙ unlink-IsNew m fs new);
          keys =
              ap keys a.entries
              ∙ ap (λ ks. (file_location f).word ∷ ks)
                  (keys-decremented_all a.olds (maps.entries w.fams) ∙ durable.keys);
          cores = λ word. ap (core_from word) a.entries ∙ same_core word;
          words = λ k.
              a.words k
              ∙ ap (installed_word pages (w.next_file_lsn + 2 ^ 62) (lookup k locations))
                  (durable.words k);
        },
      )
    where
      same_core :
          (word : ℕ)
          → core_from word (
              (batch_location w.next_file_lsn, a.fam)
              ∷ decremented_all a.olds (maps.entries w.fams))
            ≡ (if leb (batch_location w.next_file_lsn).word word
                then some (w.disk.next_inode, batch_location w.next_file_lsn, none)
                else core_from word (recovered crates fs))
      same_core word =
          ap₂ (λ c rest. if leb (batch_location w.next_file_lsn).word word then some c else rest)
            a.core
            (core_from-decremented_all word a.olds (maps.entries w.fams) ∙ durable.cores word)
