-- ===== src/Store/Write.antt =====
-- `write_batch_inner` (src/writepath.rs) on a state that holds a map: the batch's objects are in the
-- map afterwards.
use marble.Prelude.{
  ℕ, ◌+◌, ◌^◌, ◌<◌, ◌≡◌, refl, ap, ◌∙◌, arith, false, Option, none, some, [], ◌∷◌, ◌++◌, All,
  length, ok, ==_refl,
}
use marble.Prelude.Assoc.{Assoc, lookup, Distinct}
use marble.Prelude.Bytes.{Bytes}
use marble.Config.{Config}
use marble.Disk.Calm.{
  opened, appended, appended-IsCalm, contents-appended, names-appended, next_inode-appended,
  contents-filled,
}
use marble.Store.{Objects, IsStore}
use marble.Store.Appended.{IsAppended}
use marble.Store.After.{
  updated, olds, olds-Removable, base-IsDescending, locations-Newer, after-IsStore,
}
use marble.Store.Names.{find_name-finished}
use marble.World.{Crates, World}
use marble.WritePath.Batch.{
  Compression, is_empty, tmp_file_name, choose_compression, write_batch_inner,
}
use marble.WritePath.Batch.Begin.{begun, written_batch, write_batch_inner-begin}
use marble.WritePath.Batch.Finish.{finished, trailer}
use marble.WritePath.Batch.Installing.{final_fam, new, batch_lsn, IsWritten, insert_and_finish_lem}
use marble.WritePath.Layout.{file_bytes, relative_locations, Writable}
use marble.WritePath.Offsets.{relative_locations-Distinct, length-relative_locations}
use marble.Zstd

relative_locations-is_empty :
    (encode : Bytes → Bytes) (offset : ℕ) (objects : Assoc (Option Bytes))
    → is_empty (relative_locations encode offset objects) ≡ is_empty objects
unfolding relative_locations
relative_locations-is_empty encode offset [] = refl
relative_locations-is_empty encode offset ((id, none) ∷ rest) = refl
relative_locations-is_empty encode offset ((id, some raw) ∷ rest) = refl

module _ {T M : Type 0} (crates : Crates T M) (config : Config) where
  open crates use {pages, maps, crc, zstd}

  -- The new file holds what the loop wrote.
  begun_contents :
      (w : World T M) (name bytes : Bytes)
      → (appended (opened w.disk name) w.disk.next_inode bytes).contents w.disk.next_inode ≡ bytes
  begun_contents w name bytes =
      contents-appended (opened w.disk name) w.disk.next_inode bytes
      ∙ rw (==_refl w.disk.next_inode) refl

  -- What the new state is, beside that it holds the map.
  pub write_batch_inner-appends :
      (objects : Objects) (w : World T M) (encode : Bytes → Bytes) (batch : Assoc (Option Bytes))
      (compression : Compression)
      → IsStore crates objects w
      → is_empty batch ≡ false
      → Distinct batch
      → All (λ (p : ℕ × Option Bytes). p.0 < 2 ^ 64) batch
      → length batch < 2 ^ 64
      → choose_compression zstd config batch ≡ ok compression
      → Writable crates config compression.compressor_and_level_opt w.disk.next_inode encode batch
      → ((id : ℕ) (raw : Bytes)
          → lookup id batch ≡ some (some raw)
          → Zstd.decompress zstd compression.decompressor (encode raw) ≡ ok raw)
      → w.next_file_lsn + length (file_bytes crc encode batch) + 1 < 2 ^ 62
      → w.tmp_counter + 1 < 2 ^ 64
      → (w' : World T M) × (write_batch_inner crates config batch 0 [] w ≡ (ok tt, w'))
        × IsStore crates (updated batch objects) w'
        × (w'.next_file_lsn ≡ w.next_file_lsn + length (file_bytes crc encode batch) + 1)
        × (w'.tmp_counter ≡ w.tmp_counter + 1)
        × IsAppended crates w w'
            (file_bytes crc encode batch)
            (relative_locations encode 0 batch)
            compression
  write_batch_inner-appends objects w encode batch compression s some_objects distinct ids few
        chosen fit decodes room counter =
      let bytes = file_bytes crc encode batch in
      let name = tmp_file_name w.tmp_counter in
      let file = w.disk.next_inode in
      let free = s.names w.tmp_counter (omega arith) in
      let (saved_bytes, total, e1) =
        write_batch_inner-begin crates config encode batch compression w some_objects s.calm free
          chosen fit distinct (omega (arith, room)) in
      let written = written_batch encode batch (length bytes) saved_bytes in
      let w1 = begun crates config w bytes total in
      let count = length-relative_locations encode 0 batch in
      let d1 = opened w.disk name in
      let calm1 = appended-IsCalm d1 file bytes s.calm in
      let written_there = begun_contents w name bytes in
      let is_written : IsWritten crates config batch name file compression written w.disk.names w1 =
        (
          calm1,
          names-appended d1 file bytes,
          ap length written_there,
          relative_locations-Distinct encode 0 batch distinct,
          relative_locations-is_empty encode 0 batch ∙ some_objects,
        ) in
      let (t, fams, e2, at, entries_at) =
        insert_and_finish_lem crates config batch name file compression written w.disk.names w1
          is_written (locations-Newer crates objects w s encode batch distinct ids room) room
          (base-IsDescending crates objects w s encode batch)
          (olds-Removable crates objects w s encode batch distinct ids room)
          (omega (arith, count, few)) in
      let n =
        new crates config batch name file compression written w.disk.names
          (batch_lsn crates config batch name file compression written w.disk.names w1) in
      let tr = trailer crates config n in
      let w' = record w1 {
        location_table = t;
        fams = fams;
        next_file_lsn = w.next_file_lsn + length bytes + 1;
        disk = finished w1.disk n tr w.disk.names;
      } in
      (
        w',
        e1 ∙ e2,
        after-IsStore crates objects w s encode batch distinct ids room w' _ tr at refl refl decodes
            (contents-appended w1.disk file tr ∙ ap (λ b. b ++ tr) written_there)
            (contents-filled w.disk name bytes tr)
            (next_inode-appended w1.disk file tr ∙ next_inode-appended d1 file bytes)
            (appended-IsCalm w1.disk file tr calm1) refl (ground (arith, counter)) entries_at refl
            (omega (arith, count, few))
            (λ k le.
              find_name-finished k file n.metadata w.disk.names
                (s.names k (omega (arith, counter, le)))),
        refl,
        ground (arith, counter),
        record {
          metadata = n.metadata;
          fam = final_fam crates config batch name file compression written w.disk.names w1;
          olds = olds crates objects w s encode batch;
          lsn = refl;
          trailer_offset = refl;
          file_size = refl;
          present_objects = omega (arith, few);
          generation = refl;
          core = refl;
          entries = entries_at;
          words = at;
          holds = contents-appended w1.disk file tr ∙ ap (λ b. b ++ tr) written_there;
          kept = contents-filled w.disk name bytes tr;
          inodes = next_inode-appended w1.disk file tr ∙ next_inode-appended d1 file bytes;
          names = refl;
          next = refl;
        },
      )

  -- `write_batch_inner` on a state that holds a map, where no call of the system fails. The batch
  -- is not empty, has no id twice and fewer than 2 ^ 64 ids, all of 64 bits; its objects are small
  -- enough and compress to what decompresses to them again. Neither the log nor the counter of
  -- temporary names comes to its end. Then it returns, and the state after it holds the map with
  -- the batch's objects in it; the log is longer by the batch's bytes and 1, and one temporary name
  -- is used up.
  pub write_batch_inner-IsStore :
      (objects : Objects) (w : World T M) (encode : Bytes → Bytes) (batch : Assoc (Option Bytes))
      (compression : Compression)
      → IsStore crates objects w
      → is_empty batch ≡ false
      → Distinct batch
      → All (λ (p : ℕ × Option Bytes). p.0 < 2 ^ 64) batch
      → length batch < 2 ^ 64
      → choose_compression zstd config batch ≡ ok compression
      → Writable crates config compression.compressor_and_level_opt w.disk.next_inode encode batch
      → ((id : ℕ) (raw : Bytes)
          → lookup id batch ≡ some (some raw)
          → Zstd.decompress zstd compression.decompressor (encode raw) ≡ ok raw)
      → w.next_file_lsn + length (file_bytes crc encode batch) + 1 < 2 ^ 62
      → w.tmp_counter + 1 < 2 ^ 64
      → (w' : World T M) × (write_batch_inner crates config batch 0 [] w ≡ (ok tt, w'))
        × IsStore crates (updated batch objects) w'
        × (w'.next_file_lsn ≡ w.next_file_lsn + length (file_bytes crc encode batch) + 1)
        × (w'.tmp_counter ≡ w.tmp_counter + 1)
  write_batch_inner-IsStore objects w encode batch compression s some_objects distinct ids few
        chosen fit decodes room counter =
      let (w', e, s', log, used, _) =
        write_batch_inner-appends objects w encode batch compression s some_objects distinct ids few
          chosen fit decodes room counter in
      (w', e, s', log, used)
