-- ===== src/FileMap/Defrag.antt =====
-- `FileMap::files_to_defrag`: claims the files that are worth rewriting, by generation.
use marble.Prelude.{
  ℕ, ◌+◌, ◌*◌, ◌/◌, ◌%◌, min, max, Bool, true, ◌&&◌, ◌||◌, not, none, some, List, [], ◌∷◌, ◌++◌,
  length, assert, ltb, leb, ◌==◌, if◌then◌else◌,
}
use marble.Prelude.Assoc.{Assoc, lookup, insert}
use marble.Prelude.Bytes.{u64_mod}
use marble.Config.{Config}
use marble.ConcurrentMap.{Entries}
use marble.DiskLocation.{DiskLocation}
use marble.Exec.{Exec, ◌>>=◌, ◌>>◌, pure, lift, gets, modify}
use marble.FileMap.{same_location, set_fam}
use marble.Metadata.{Metadata}
use marble.World.{FileAndMetadata, Crates, World}

abbrev pub max_generation : ℕ
max_generation = 3

abbrev pub Files : Type 0
Files = Assoc (List FileAndMetadata)

unfoldable pub live_percent : ℕ → ℕ → ℕ
live_percent live_objects live_and_dead_objects =
    live_objects * 100 % u64_mod / max live_and_dead_objects 1

-- Whether a file with `live_objects` is to be rewritten, where the map holds `fams_len` files.
unfoldable pub is_candidate : Config → ℕ → Metadata → ℕ → Bool
unfolding live_percent
is_candidate config fams_len metadata live_objects =
    let non_empty = not (live_objects == 0) in
    let candidate_by_percent =
      ltb (live_percent live_objects metadata.present_objects) config.file_compaction_percent in
    let is_small_file =
      ltb (metadata.file_size * config.min_compaction_files % u64_mod) config.target_file_size in
    let over_small_file_cleanup_threshold = leb config.small_file_cleanup_threshold fams_len in
    let candidate_by_size = over_small_file_cleanup_threshold && is_small_file in
    non_empty && (candidate_by_percent || candidate_by_size)

-- `saturating_add(1).min(MAX_GENERATION)` of a `u8`
unfoldable pub next_generation : ℕ → ℕ
next_generation generation = min (min (generation + 1) 255) max_generation

-- `entry(generation).or_default().push(fam)`
unfoldable pub push_file : ℕ → FileAndMetadata → Files → Files
unfolding lookup insert
push_file generation fam files = elim (lookup generation files) [
  | none ↦ insert generation (fam ∷ []) files
  | some fams ↦ insert generation (fams ++ (fam ∷ [])) files
]

module _ {T M : Type 0} (crates : Crates T M) (config : Config) where
  open crates use {maps}

  -- One round of the loop, once the file is known to be a candidate: it is claimed, unless some other
  -- run has it.
  unfoldable pub claim_file :
      DiskLocation
      → FileAndMetadata
      → Metadata
      → Files × List DiskLocation
      → Exec (World T M) (Files × List DiskLocation)
  unfolding next_generation push_file
  claim_file location fam metadata (files, claims) = do
    modify (set_fam crates location (record fam { rewrite_claim = true }))
    if fam.rewrite_claim then pure (files, claims) else do
      lift (assert (not (metadata.present_objects == 0)))
      pure (
        push_file (next_generation fam.generation) (record fam { rewrite_claim = true }) files,
        claims ++ (location ∷ []),
      )

  unfoldable pub visit_file :
      ℕ
      → DiskLocation
      → FileAndMetadata
      → Files × List DiskLocation
      → Exec (World T M) (Files × List DiskLocation)
  unfolding is_candidate claim_file
  visit_file fams_len location fam found = do
    lift (assert (same_location location fam.location))
    elim fam.metadata [
      | none ↦ pure found
      | some metadata ↦
          if is_candidate config fams_len metadata fam.live_objects
          then claim_file location fam metadata found
          else pure found
    ]

  unfoldable pub visit_files :
      ℕ
      → Entries FileAndMetadata
      → Files × List DiskLocation
      → Exec (World T M) (Files × List DiskLocation)
  unfolding visit_file
  visit_files fams_len [] found = pure found
  visit_files fams_len ((location, fam) ∷ rest) found = do
    found' ← visit_file fams_len location fam found
    visit_files fams_len rest found'

  unfoldable pub files_to_defrag : Exec (World T M) (Files × List DiskLocation)
  unfolding visit_files
  files_to_defrag = do fams ← gets λ w. maps.entries w.fams; visit_files (length fams) fams ([], [])
