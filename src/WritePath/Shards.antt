-- ===== src/WritePath/Shards.antt =====
-- `write_batch` and `shard_batch` (src/writepath.rs). The user's batch is the list of pairs that its
-- iterator gives; a later pair replaces an earlier one with the same id.
pub mod Atomic
use marble.Prelude.{
  ℕ, ◌+◌, ◌%◌, max, Bool, true, false, ◌&&◌, not, Option, none, some, List, [], ◌∷◌, ◌++◌, length,
  ltb, ◌==◌, if◌then◌else◌,
}
use marble.Prelude.Assoc.{Assoc, lookup, insert}
use marble.Prelude.Bytes.{Bytes, u64_mod}
use marble.Config.{Config}
use marble.Disk
use marble.DiskLocation.{DiskLocation}
use marble.Exec.{Exec, ◌>>=◌, ◌>>◌, pure, modify}
use marble.FileMap.{sub64}
use marble.ObjectRecord.{header_len}
use marble.World.{Crates, World, add64, on_disk}
use marble.WritePath.Batch.{is_empty, new_write_generation, write_batch_inner}

abbrev pub Objects : Type 0
Objects = Assoc (Option Bytes)

-- A shard: its size, and its objects.
abbrev pub Shard : Type 0
Shard = ℕ × Objects

pub record Sharding : Type 0 where
  pub shards : Assoc Shard
  pub fragmented_shards : List Objects
  pub high_level_user_bytes_written : ℕ
  pub max_oid : ℕ

abbrev pub no_shards : Sharding
no_shards = record {
  shards = [];
  fragmented_shards = [];
  high_level_user_bytes_written = 0;
  max_oid = 0;
}

abbrev pub or_default : Option Shard → Shard
or_default none = (0, [])
or_default (some shard) = shard

-- The bytes that an object adds to its shard, and the shard.
unfoldable pub size_and_shard : Config → ℕ → ℕ → Option Bytes → ℕ × ℕ
size_and_shard config gen object_id none = (0, 0)
size_and_shard config gen object_id (some bytes) = (
  length bytes + header_len,
  if gen == new_write_generation then 0 else config.partition_function object_id (length bytes),
)

abbrev pub user_bytes : Assoc DiskLocation → Option Bytes → ℕ
user_bytes old_locations none = 0
user_bytes old_locations (some bytes) = if is_empty old_locations then length bytes else 0

-- The length of the object that an insertion replaces.
abbrev pub replaced_len : Option (Option Bytes) → ℕ
replaced_len (some (some replaced)) = length replaced
replaced_len _ = 0

-- The insertion into a shard, with the shard's new size.
unfoldable pub insert_object : ℕ → Option Bytes → ℕ → Shard → Shard
unfolding lookup insert
insert_object object_id object object_size (size, objects) = (
  sub64 (add64 size object_size) (replaced_len (lookup object_id objects)),
  insert object_id object objects,
)

-- One round of the loop.
unfoldable pub add_object : Config → ℕ → Assoc DiskLocation → ℕ → Option Bytes → Sharding → Sharding
unfolding size_and_shard insert_object lookup insert
add_object config gen old_locations object_id object s =
    let (object_size, shard_id) = size_and_shard config gen object_id object in
    let shard = or_default (lookup shard_id s.shards) in
    let is_rewrite = ltb new_write_generation gen in
    let over_size_preference = ltb config.target_file_size shard.0 in
    let split = is_rewrite && over_size_preference in
    record {
      shards =
          insert shard_id
            (insert_object object_id object object_size (if split then (0, []) else shard))
            s.shards;
      fragmented_shards =
          if split then s.fragmented_shards ++ (shard.1 ∷ []) else s.fragmented_shards;
      high_level_user_bytes_written =
          add64 s.high_level_user_bytes_written (user_bytes old_locations object);
      max_oid = max s.max_oid object_id;
    }

unfoldable pub add_objects :
    Config → ℕ → Assoc DiskLocation → List (ℕ × Option Bytes) → Sharding → Sharding
unfolding add_object
add_objects config gen old_locations [] s = s
add_objects config gen old_locations ((object_id, object) ∷ rest) s =
    add_objects config gen old_locations rest
      (add_object config gen old_locations object_id object s)

-- `shards.into_iter().map(..).chain(fragmented_shards ..)`
unfoldable pub batches : Assoc Shard → List Objects → List Objects
batches [] fragmented = fragmented
batches ((shard_id, (size, objects)) ∷ rest) fragmented = objects ∷ batches rest fragmented

module _ {T M : Type 0} (crates : Crates T M) (config : Config) where
  unfoldable pub write_all_batches :
      List Objects → ℕ → Assoc DiskLocation → Exec (World T M) (Unit {0})
  unfolding write_batch_inner
  write_all_batches [] gen old_locations = pure tt
  write_all_batches (objects ∷ rest) gen old_locations = do
    write_batch_inner crates config objects gen old_locations
    write_all_batches rest gen old_locations

  unfoldable pub shard_batch :
      List (ℕ × Option Bytes) → ℕ → Assoc DiskLocation → Exec (World T M) (Unit {0})
  unfolding add_objects batches write_all_batches Disk.sync
  shard_batch write_batch gen old_locations = do
    let s = add_objects config gen old_locations write_batch no_shards
    modify λ w. record w {
      high_level_user_bytes_written =
          add64 w.high_level_user_bytes_written s.high_level_user_bytes_written;
      max_object_id = max w.max_object_id s.max_oid;
    }
    write_all_batches (batches s.shards s.fragmented_shards) gen old_locations
    if config.fsync_each_batch then on_disk Disk.sync else pure tt

  unfoldable pub write_batch : List (ℕ × Option Bytes) → Exec (World T M) (Unit {0})
  unfolding shard_batch
  write_batch batch = shard_batch batch new_write_generation []
