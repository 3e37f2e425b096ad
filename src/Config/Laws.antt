-- ===== src/Config/Laws.antt =====
-- The partition of sizes, and which configurations are accepted.
use marble.Prelude.{
  Bool-cases, ltb, ◌==◌, ℕ, ◌≤◌, ◌<◌, ◌≡◌, ◌⊎◌, inl, inr, arith, ok, err, unsupported,
}
use marble.Config.{Config, default_partition_function, validate}

-- `validate` accepts a configuration exactly when its target size is not 0 and its percentage is below
-- 100, and refuses any other with `Unsupported`.
pub validate_cases :
    (config : Config)
    → ((validate config ≡ ok tt)
        × (0 < config.target_file_size)
        × (config.file_compaction_percent < 100))
      ⊎ ((validate config ≡ err unsupported)
          × ((config.target_file_size ≡ 0) ⊎ (100 ≤ config.file_compaction_percent)))
unfolding validate
validate_cases config = elim (Bool-cases (config.target_file_size == 0)) [
  | inl e ↦ inr (ground arith, inl (ground arith))
  | inr e ↦ elim (Bool-cases (ltb 99 config.file_compaction_percent)) [
    | inl p ↦ inr (ground arith, inr (ground arith))
    | inr p ↦ inl (ground arith, ground arith, ground arith)
  ]
]

-- Larger objects never go to an earlier shard, whatever their ids, and no shard is beyond the fourth.
pub partition_mono :
    (a b size size' : ℕ)
    → size ≤ size'
    → (default_partition_function a size ≤ default_partition_function b size')
      × (default_partition_function b size' < 4)
unfolding default_partition_function
partition_mono a b size size' h = ground arith
