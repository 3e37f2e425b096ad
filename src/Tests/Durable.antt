-- ===== src/Tests/Durable.antt =====
-- The theorems on restarts and crashes, at concrete inputs.
use marble.Prelude.{
  Bool, true, false, Option, ℕ, ◌+◌, ◌≤◌, ◌≡◌, refl, sym, ap, subst, arith, none, some, List, [],
  ◌∷◌, ok, err, invalid_data, ◌^◌, ◌<◌, ◌==◌, if◌then◌else◌,
}
use marble.Prelude.Assoc.{Assoc}
use marble.Prelude.Bytes.{Bytes}
use marble.ConcurrentMap.{Entries}
use marble.Config.{validate}
use marble.Disk.{Disk}
use marble.Metadata.{Metadata, to_file_name}
use marble.Recovery.Directory.{ends_with_tmp}
use marble.Recovery.Open.{open_config}
use marble.Store.{IsStore}
use marble.Store.Batches.{objects_size}
use marble.Store.Durable.{LogFile, IsLog, IsDurable}
use marble.Store.Durable.Crash.{open_config-crash}
use marble.Store.Durable.Restart.{open_config-IsStore}
use marble.Store.Durable.Corrupt.{open_config-corrupt}
use marble.Store.Durable.Write.{IsLog-kept}
use marble.Crc32.{sum_crc}
use marble.Trailer.{read_trailer_from_buf}
use marble.Store.Empty.{no_objects, new_store, new_store-IsStore}
use marble.Store.Promise.{after_batch, Advanced, write_batch-IsDurable}
use marble.Recovery.Utf8.{is_utf8}
use marble.Store.Sessions.{
  Event, batch_written, process_killed, after_events, play, new_store-IsDurable, play-IsStore,
}
use marble.Tests.Setup.{crates, config, start}
use marble.World.{FileAndMetadata, World}
use marble.WritePath.Batch.{tmp_file_name}
use marble.WritePath.Shards

abbrev W : Type 0
W = World (ℕ → ℕ) (Entries FileAndMetadata)

-- An object, and a deleted one.
abbrev batch : Assoc (Option Bytes)
batch = (3, some (7 ∷ 8 ∷ [])) ∷ (5, none) ∷ []

start-IsStore : IsStore crates no_objects (new_store crates start)
start-IsStore = new_store-IsStore crates start refl refl

start-IsDurable : IsDurable crates 100 [] (new_store crates start)
start-IsDurable = new_store-IsDurable crates config 100 start refl

write_batch-IsDurable_example :
    (w' : W) × (fs : List LogFile) × (Shards.write_batch crates config batch
        (new_store crates start)
      ≡ (ok tt, w'))
    × IsStore crates (after_batch batch no_objects) w'
    × IsDurable crates 100 fs w'
    × Advanced crates config (new_store crates start) w' (objects_size batch)
write_batch-IsDurable_example =
    write_batch-IsDurable crates config 100 [] no_objects batch (new_store crates start) refl
      start-IsStore start-IsDurable (omega arith, (omega arith, tt)) (omega arith, (tt, tt))
      (omega arith) (omega arith) (omega arith) (omega arith)

-- The state after the batch, and its files.
abbrev written : W
written = (Shards.write_batch crates config batch (new_store crates start)).1

abbrev IsWritten : W → Type 0
IsWritten w =
    (fs : List LogFile) × IsStore crates (after_batch batch no_objects) w
    × IsDurable crates 100 fs w
    × (w.next_file_lsn ≤ 24)

written-IsWritten : IsWritten written
written-IsWritten =
    let (w', fs, e, s, d, further) =
      write_batch-IsDurable crates config 100 [] no_objects batch (new_store crates start) refl
        start-IsStore start-IsDurable (omega arith, (omega arith, tt)) (omega arith, (tt, tt))
        (omega arith) (omega arith) (omega arith) (omega arith) in
    subst IsWritten (sym (ap (λ p. p.1) e)) (fs, s, d, omega (arith, further.0))

open_config-IsStore_example :
    (w' : W) × (open_config crates config (record written { tmp_counter = 0 }) ≡ (ok tt, w'))
    × IsStore crates (after_batch batch no_objects) w'
    × IsDurable crates 100 written-IsWritten.0 w'
    × (w'.next_file_lsn ≤ written.next_file_lsn + 100 + 1)
    × (w'.tmp_counter ≡ 0)
unfolding validate
open_config-IsStore_example =
    open_config-IsStore crates config (after_batch batch no_objects) 100 written-IsWritten.0 written
      written-IsWritten.1 written-IsWritten.2 0 refl (omega arith)
      (omega (arith, written-IsWritten.3))

-- The disk after the batch, with an unfinished file on it.
abbrev crashed : Disk
crashed = record written.disk { names = (tmp_file_name 1, 9) ∷ written.disk.names }

open_config-crash_example :
    (w' : W) × (open_config crates config (record written { disk = crashed; tmp_counter = 0 })
      ≡ (ok tt, w'))
    × IsStore crates (after_batch batch no_objects) w'
    × IsDurable crates 100 written-IsWritten.0 w'
    × (w'.next_file_lsn ≤ written.next_file_lsn + 100 + 1)
    × (w'.tmp_counter ≡ 0)
unfolding validate ends_with_tmp tmp_file_name is_utf8
open_config-crash_example =
    open_config-crash crates (after_batch batch no_objects) 100 written-IsWritten.0 written crashed
      written-IsWritten.1 written-IsWritten.2
      (record { calm = written-IsWritten.1.calm; contents = λ i lt. refl; inodes = omega arith })
      config ((tmp_file_name 1, 9) ∷ []) 0 refl (omega arith) (omega (arith, written-IsWritten.3))
      ((refl, refl), tt) refl

abbrev events : List Event
events = batch_written batch ∷ process_killed ∷ batch_written ((3, none) ∷ []) ∷ process_killed ∷ []

play-IsStore_example :
    (w' : W) × (fs : List LogFile) × (play crates config (process_killed ∷ events) start
      ≡ (ok tt, w'))
    × IsStore crates (after_events events no_objects) w'
    × IsDurable crates 100 fs w'
unfolding validate
play-IsStore_example =
    play-IsStore crates config 100 events start refl refl refl refl
      (
        ((omega arith, (omega arith, tt)), (omega arith, (tt, tt)), omega arith),
        (tt, (((omega arith, tt), (tt, tt), omega arith), (tt, tt))),
      )
      (omega arith)

-- A file behind the log whose checksum is wrong.
abbrev damaged : Bytes
damaged = 9 ∷ 0 ∷ 0 ∷ 0 ∷ 0 ∷ 0 ∷ 0 ∷ 0 ∷ 0 ∷ 0 ∷ 0 ∷ 0 ∷ 0 ∷ 0 ∷ 0 ∷ 0 ∷ 0 ∷ 0 ∷ 0 ∷ 0 ∷ []

abbrev damaged_metadata : Metadata
damaged_metadata = record {
  lsn = 30 + 2 ^ 62;
  trailer_offset = 0;
  present_objects = 1;
  generation = 0;
  file_size = 20;
}

abbrev corrupt : W
corrupt = record written {
  disk = record written.disk {
    contents = λ i. if i == written.disk.next_inode then damaged else written.disk.contents i;
    names = (to_file_name damaged_metadata, written.disk.next_inode) ∷ written.disk.names;
  };
}

elsewhere : (i n : ℕ) (here there : Bytes) → i < n → (if i == n then here else there) ≡ there
elsewhere i n here there lt = ground arith

at_last : (n : ℕ) (here there : Bytes) → (if n == n then here else there) ≡ here
at_last n here there = ground arith

corrupt-IsLog :
    IsLog sum_crc corrupt.disk.contents corrupt.disk.next_inode 100 corrupt.next_file_lsn
      written-IsWritten.0
corrupt-IsLog =
    IsLog-kept sum_crc written.disk.contents corrupt.disk.contents written.disk.next_inode
      corrupt.disk.next_inode 100 written.next_file_lsn written-IsWritten.0 (omega arith)
      (λ i lt. elsewhere i written.disk.next_inode damaged (written.disk.contents i) lt)
      written-IsWritten.2.log

open_config-corrupt_example :
    (w' : W) × (open_config crates config corrupt ≡ (err invalid_data, w'))
    × (w'.disk.names ≡ (to_file_name damaged_metadata, written.disk.next_inode) ∷ [])
unfolding validate read_trailer_from_buf marble.Prelude.Slices.slice
    marble.Prelude.Bytes.from_le_bytes
open_config-corrupt_example =
    open_config-corrupt crates config corrupt.disk.next_inode 100 corrupt.next_file_lsn 30
      written.disk.next_inode (omega arith) written-IsWritten.0 damaged_metadata [] damaged
      invalid_data corrupt written-IsWritten.1.calm corrupt-IsLog
      (record {
        lsn = omega arith;
        trailer_offset = omega arith;
        present_objects = omega arith;
        generation = omega arith;
      })
      refl (omega (arith, written-IsWritten.3)) (omega arith)
      (at_last written.disk.next_inode damaged (written.disk.contents written.disk.next_inode)) refl
      refl (omega arith) refl
      (ap (λ names. (to_file_name damaged_metadata, written.disk.next_inode) ∷ names)
        written-IsWritten.2.names)
      refl
