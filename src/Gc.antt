-- ===== src/Gc.antt =====
-- src/gc.rs: `maintenance` rewrites what is live in the files that were claimed, generation by
-- generation, and then drops the files that are empty.
pub mod Collect
use marble.Prelude.{
  ℕ, ◌+◌, Bool, Option, none, some, List, [], ◌∷◌, ◌++◌, length, Outcome, ok, unwrap, ltb,
  if◌then◌else◌,
}
use marble.Prelude.Assoc.{Assoc}
use marble.Prelude.Slices.{slice}
use marble.Config.{Config}
use marble.Disk
use marble.DiskLocation.{DiskLocation}
use marble.Exec.{Exec, ◌>>=◌, ◌>>◌, pure, lift, gets}
use marble.FileReads.{read_range_at}
use marble.FileMap.Defrag.{Files, files_to_defrag}
use marble.FileMap.Prune.{prune_empty_files}
use marble.Gc.Collect.{Collected, nothing_collected, collect_objects, collect_deletes}
use marble.Metadata.{Metadata}
use marble.Trailer.{read_trailer_from_buf}
use marble.World.{FileAndMetadata, Crates, World, on_disk}
use marble.WritePath.Batch.{releasing}
use marble.WritePath.Shards.{shard_batch}

module _ {T M : Type 0} (crates : Crates T M) (config : Config) where
  open crates use {pages, crc}

  -- Gathers from one file what the location table still points to.
  unfoldable pub collect_file : FileAndMetadata → Collected → Exec (World T M) Collected
  unfolding read_range_at slice read_trailer_from_buf collect_objects collect_deletes
  collect_file fam collected = do
    metadata ← lift (unwrap fam.metadata)
    path ← lift (unwrap fam.path)
    file_buf ← read_range_at crates fam.file 0 metadata.file_size
    trailer_buf ← lift (slice file_buf metadata.trailer_offset (length file_buf))
    (trailer, zstd_dict) ← lift (read_trailer_from_buf crc trailer_buf)
    table ← gets λ w. w.location_table
    collected' ← lift (
        collect_objects crates config table fam zstd_dict file_buf metadata.trailer_offset
          metadata.trailer_offset 0 collected)
    lift (collect_deletes pages table fam trailer collected')

  unfoldable pub collect_files : List FileAndMetadata → Collected → Exec (World T M) Collected
  unfolding collect_file
  collect_files [] collected = pure collected
  collect_files (fam ∷ rest) collected = do
    collected' ← collect_file fam collected
    collect_files rest collected'

  -- One round of the loop over the generations; the count is that of the objects rewritten.
  unfoldable pub rewrite_generation : ℕ → List FileAndMetadata → Exec (World T M) ℕ
  unfolding collect_files shard_batch
  rewrite_generation generation fams =
      if ltb (length fams) config.min_compaction_files then pure 0 else do
        collected ← collect_files fams nothing_collected
        shard_batch crates config collected.batch generation collected.old_locations
        pure (length collected.batch)

  unfoldable pub rewrite_generations : Files → ℕ → Exec (World T M) ℕ
  unfolding rewrite_generation
  rewrite_generations [] rewritten_objects = pure rewritten_objects
  rewrite_generations ((generation, fams) ∷ rest) rewritten_objects = do
    n ← rewrite_generation generation fams
    rewrite_generations rest (rewritten_objects + n)

  unfoldable pub maintenance : Exec (World T M) ℕ
  unfolding files_to_defrag rewrite_generations prune_empty_files
  maintenance = do
    (files, claims) ← files_to_defrag crates config
    rewritten_objects ← releasing crates config claims (rewrite_generations files 0)
    prune_empty_files crates
    pure rewritten_objects
