-- ===== src/Store/Promise.antt =====
-- What the store promises for `write_batch` and `read` (src/writepath.rs, src/readpath.rs; the example
-- of src/lib.rs), where objects are not compressed.
use marble.Prelude.{
  ℕ, ◌+◌, ◌*◌, ◌^◌, ◌≤◌, ◌<◌, ◌≡◌, refl, ap, subst, ◌∙◌, arith, Option, none, List, [], ◌∷◌, All,
  length, ok, if◌then◌else◌, Bool-cases, inl, inr, max,
}
use mathlib.Core.Path.{fun_ext}
use marble.Prelude.Assoc.{lookup, insert, Distinct-insert, lookup-insert}
use marble.Prelude.Bytes.{Bytes}
use marble.Config.{Config}
use marble.Disk
use marble.Disk.Calm.{IsCalm, sync_calm}
use marble.Exec.{pure}
use marble.Store.{Objects, IsStore}
use marble.Store.After.{or_before, updated}
use marble.Store.Batches.{
  objects_size, raw_encoding, length-file_bytes, objects_size-insert_all, All-insert_all,
  insert-is_empty, insert_all-is_empty, IsAccepted, accepted-Writable, choose_none,
}
use marble.Store.Durable.{LogFile, IsDurable}
use marble.Store.Durable.Write.{IsAppended-IsDurable}
use marble.Store.Table.{relative_locations-IsWithin}
use marble.Store.Write.{write_batch_inner-appends}
use marble.World.{Crates, World, add64, on_disk}
use marble.WritePath.Batch.{uncompressed, write_batch_inner}
use marble.WritePath.Layout.{file_bytes, relative_locations}
use marble.WritePath.Offsets.{relative_locations-Distinct, length-relative_locations}
use marble.WritePath.Shards.{
  no_shards, add_objects, batches, shard_batch, write_all_batches, write_batch,
}
use marble.WritePath.Shards.Atomic.{
  insert_all, last_of, lookup-insert_all, Distinct-insert_all, batches-insert_all,
}
use marble.Zstd

-- The map after a user's batch: what the batch says last of an id.
abbrev pub after_batch : List (ℕ × Option Bytes) → Objects → Objects
after_batch batch objects k = or_before (last_of k batch none) (objects k)

module _ {T M : Type 0} (crates : Crates T M) (config : Config) where
  open crates use {crc, zstd}

  -- How far a write may move the end of the log and the counter of temporary names.
  abbrev pub Advanced : World T M → World T M → ℕ → Type 0
  Advanced w w' bytes =
      (w'.next_file_lsn ≤ w.next_file_lsn + bytes + 1) × (w'.tmp_counter ≤ w.tmp_counter + 1)

  -- A state that agrees with the files of a log goes over into one that does, where the new file is no
  -- longer than those may be.
  abbrev pub Persists : World T M → World T M → List (ℕ × Option Bytes) → Type 0
  Persists w w' batch =
      (most : ℕ) (fs : List LogFile)
      → objects_size batch + (20 + length batch * 16) ≤ most
      → IsDurable crates most fs w
      → (fs' : List LogFile) × IsDurable crates most fs' w'

  with_counters-IsDurable :
      (most : ℕ) (fs : List LogFile) (w : World T M) (bytes oid : ℕ)
      → IsDurable crates most fs w
      → IsDurable crates most fs
          (record w { high_level_user_bytes_written = bytes; max_object_id = oid })
  with_counters-IsDurable most fs w bytes oid durable = record {
    log = durable.log;
    names = durable.names;
    keys = durable.keys;
    cores = durable.cores;
    words = durable.words;
  }

  -- The two counters that `shard_batch` changes play no part.
  with_counters :
      (objects : Objects) (w : World T M) (bytes oid : ℕ)
      → IsStore crates objects w
      → IsStore crates objects
          (record w { high_level_user_bytes_written = bytes; max_object_id = oid })
  with_counters objects w bytes oid s = record {
    calm = s.calm;
    descending = s.descending;
    below = s.below;
    counted = s.counted;
    small = s.small;
    ids = s.ids;
    words = s.words;
    shows = s.shows;
    names = s.names;
  }

  sync_if :
      (w : World T M)
      → IsCalm w.disk
      → (if config.fsync_each_batch then on_disk Disk.sync else pure tt) w ≡ (ok tt, w)
  sync_if w calm = elim (Bool-cases config.fsync_each_batch) [
    | inl e ↦ rw (e, sync_calm w.disk calm) refl
    | inr e ↦ rw e refl
  ]

  same_map :
      (id : ℕ) (object : Option Bytes) (rest : List (ℕ × Option Bytes)) (objects : Objects)
      → updated (insert_all rest (insert id object [])) objects
        ≡ after_batch ((id, object) ∷ rest) objects
  unfolding lookup
  same_map id object rest objects = fun_ext λ k.
      ap (λ o. or_before o (objects k))
        (lookup-insert_all k rest (insert id object [])
          ∙ ap (last_of k rest) (lookup-insert id k object []))

  write_shard :
      (objects : Objects) (id : ℕ) (object : Option Bytes) (rest : List (ℕ × Option Bytes))
      (w : World T M)
      → config.zstd_compression_level ≡ none
      → IsStore crates objects w
      → All (λ (p : ℕ × Option Bytes). p.0 < 2 ^ 64) ((id, object) ∷ rest)
      → All (IsAccepted config) ((id, object) ∷ rest)
      → length ((id, object) ∷ rest) < 2 ^ 64
      → w.next_file_lsn + objects_size ((id, object) ∷ rest) + 1 < 2 ^ 62
      → w.tmp_counter + 1 < 2 ^ 64
      → (w' : World T M) × (write_batch_inner crates config
            (insert_all rest (insert id object []))
            0
            []
            w
          ≡ (ok tt, w'))
        × IsStore crates (after_batch ((id, object) ∷ rest) objects) w'
        × Advanced w w' (objects_size ((id, object) ∷ rest))
        × Persists w w' ((id, object) ∷ rest)
  unfolding insert_all Zstd.decompress
  write_shard objects id object rest w plain s ids accepted few room counter =
      let batch = insert_all rest (insert id object []) in
      let (size, count) = objects_size-insert_all ((id, object) ∷ rest) [] in
      let within : w.next_file_lsn + length (file_bytes crc raw_encoding batch) + 1 < 2 ^ 62 =
        omega (arith, room, size, length-file_bytes crc batch) in
      let distinct =
        Distinct-insert_all rest (insert id object []) (Distinct-insert id object [] tt) in
      let batch_ids =
        All-insert_all (λ (p : ℕ × Option Bytes). p.0 < 2 ^ 64) ((id, object) ∷ rest) [] ids tt in
      let (w', e, s', log, used, appended) =
        write_batch_inner-appends crates config objects w raw_encoding batch uncompressed s
          (insert_all-is_empty rest (insert id object []) (insert-is_empty id object [])) distinct
          batch_ids (omega (arith, few, count)) (choose_none crates config batch plain)
          (accepted-Writable crates config w.disk.next_inode batch
            (All-insert_all (IsAccepted config) ((id, object) ∷ rest) [] accepted tt))
          (λ id raw e. refl) within counter in
      (
        w',
        e,
        subst (λ m. IsStore crates m w') (same_map id object rest objects) s',
        (omega (arith, log, size, length-file_bytes crc batch), omega (arith, used)),
        λ most fs fits durable.
            let (f, durable') =
              IsAppended-IsDurable crates most fs w w' (file_bytes crc raw_encoding batch)
                (relative_locations raw_encoding 0 batch) appended
                (relative_locations-IsWithin crc raw_encoding
                  (length (file_bytes crc raw_encoding batch)) 0 batch batch_ids (omega arith))
                (relative_locations-Distinct raw_encoding 0 batch distinct)
                (omega (
                  arith,
                  fits,
                  size,
                  count,
                  length-file_bytes crc batch,
                  length-relative_locations raw_encoding 0 batch,
                ))
                within durable in
            (f ∷ fs, durable'),
      )

  pub write_batch-steps :
      (objects : Objects) (batch : List (ℕ × Option Bytes)) (w : World T M)
      → config.zstd_compression_level ≡ none
      → IsStore crates objects w
      → All (λ (p : ℕ × Option Bytes). p.0 < 2 ^ 64) batch
      → All (IsAccepted config) batch
      → length batch < 2 ^ 64
      → w.next_file_lsn + objects_size batch + 1 < 2 ^ 62
      → w.tmp_counter + 1 < 2 ^ 64
      → (w' : World T M) × (write_batch crates config batch w ≡ (ok tt, w'))
        × IsStore crates (after_batch batch objects) w'
        × Advanced w w' (objects_size batch)
        × Persists w w' batch
  unfolding write_batch shard_batch write_all_batches add_objects batches
  write_batch-steps objects [] w plain s ids accepted few room counter =
      let w1 = record w {
        high_level_user_bytes_written = add64 w.high_level_user_bytes_written 0;
        max_object_id = max w.max_object_id 0;
      } in
      (
        w1,
        rw (sync_if w1 s.calm) refl,
        with_counters objects w _ _ s,
        (omega arith, omega arith),
        λ most fs fits durable. (fs, with_counters-IsDurable most fs w _ _ durable),
      )
  write_batch-steps objects ((id, object) ∷ rest) w plain s ids accepted few room counter =
      let sharding = add_objects config 0 [] ((id, object) ∷ rest) no_shards in
      let w1 = record w {
        high_level_user_bytes_written =
            add64 w.high_level_user_bytes_written sharding.high_level_user_bytes_written;
        max_object_id = max w.max_object_id sharding.max_oid;
      } in
      let (w', e, s', further, persists) =
        write_shard objects id object rest w1 plain (with_counters objects w _ _ s) ids accepted few
          room counter in
      (
        w',
        rw (batches-insert_all config [] id object rest, e, sync_if w' s'.calm) refl,
        s',
        further,
        λ most fs fits durable.
            persists most fs fits (with_counters-IsDurable most fs w _ _ durable),
      )

  -- `write_batch` of any batch on a state that holds a map, without compression and where no call
  -- of the system fails: the batch has fewer than 2 ^ 64 pairs, every id fits a word, every object
  -- is accepted, and neither the log nor the counter of temporary names comes to its end. It
  -- returns, and the state after it holds the map in which each id of the batch has what the batch
  -- says last of it, and every other id what it had. The log is longer by at most the batch's bytes
  -- and 1, and at most one temporary name is used up.
  pub write_batch-IsStore :
      (objects : Objects) (batch : List (ℕ × Option Bytes)) (w : World T M)
      → config.zstd_compression_level ≡ none
      → IsStore crates objects w
      → All (λ (p : ℕ × Option Bytes). p.0 < 2 ^ 64) batch
      → All (IsAccepted config) batch
      → length batch < 2 ^ 64
      → w.next_file_lsn + objects_size batch + 1 < 2 ^ 62
      → w.tmp_counter + 1 < 2 ^ 64
      → (w' : World T M) × (write_batch crates config batch w ≡ (ok tt, w'))
        × IsStore crates (after_batch batch objects) w'
        × Advanced w w' (objects_size batch)
  write_batch-IsStore objects batch w plain s ids accepted few room counter =
      let (w', e, s', further, _) =
        write_batch-steps objects batch w plain s ids accepted few room counter in
      (w', e, s', further)

  -- `write_batch` of any batch on a state that holds a map and agrees with the files of its log,
  -- without compression and where no call of the system fails: every id fits a word, every object
  -- is accepted, the batch's file is no longer than `most`, which is less than 2 ^ 62, and neither
  -- the log nor the counter of temporary names comes to its end. It returns, and the state after it
  -- holds the map with the batch in it and agrees with the files of a log again. The log is longer
  -- by at most the batch's bytes and 1, and at most one temporary name is used up.
  pub write_batch-IsDurable :
      (most : ℕ) (fs : List LogFile) (objects : Objects) (batch : List (ℕ × Option Bytes))
      (w : World T M)
      → config.zstd_compression_level ≡ none
      → IsStore crates objects w
      → IsDurable crates most fs w
      → All (λ (p : ℕ × Option Bytes). p.0 < 2 ^ 64) batch
      → All (IsAccepted config) batch
      → most < 2 ^ 62
      → objects_size batch + (20 + length batch * 16) ≤ most
      → w.next_file_lsn + objects_size batch + 1 < 2 ^ 62
      → w.tmp_counter + 1 < 2 ^ 64
      → (w' : World T M) × (fs' : List LogFile) × (write_batch crates config batch w ≡ (ok tt, w'))
        × IsStore crates (after_batch batch objects) w'
        × IsDurable crates most fs' w'
        × Advanced w w' (objects_size batch)
  write_batch-IsDurable most fs objects batch w plain s durable ids accepted short fits room
        counter =
      let (w', e, s', further, persists) =
        write_batch-steps objects batch w plain s ids accepted (omega (arith, short, fits)) room
          counter in
      let (fs', durable') = persists most fs fits durable in (w', fs', e, s', durable', further)
