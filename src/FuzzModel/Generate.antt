-- ===== src/FuzzModel/Generate.antt =====
-- The generators of the fuzzer's input in fuzz/fuzz_targets/fuzz_model.rs. The crate `arbitrary` is not
-- part of the repository, so the bytes that it reads from stand behind an interface.
use marble.Prelude.{
  not, ℕ, zero, suc, ◌+◌, ◌≤◌, ◌≡◌, Bool, true, false, Option, none, some, [], ◌∷◌, length, Outcome,
  ok, panic, ◌==◌, if◌then◌else◌,
}
use marble.Prelude.Assoc.{Assoc, insert}
use marble.Prelude.Bytes.{Bytes}
use marble.Prelude.Int.{ℤ, pos}
use marble.Config.{Config, default}
use marble.FuzzModel.{Op, write_batch, gc, restart}

-- `arbitrary::Unstructured`: each call may fail, and a number is in its range and a slice as long as
-- it was asked for.
pub record Unstructured (U : Type 0) : Type 0 where
  pub int_in_range : ℕ → ℕ → U → Option ℕ × U
  pub bytes : ℕ → U → Option Bytes × U
  pub arbitrary_bool : U → Option Bool × U
  pub arbitrary_i32 : U → Option ℤ × U
  pub int_in_range_lem :
      (low high n : ℕ) (u : U)
      → low ≤ high
      → (int_in_range low high u).0 ≡ some n
      → (low ≤ n) × (n ≤ high)
  pub length-bytes : (n : ℕ) (value : Bytes) (u : U) → (bytes n u).0 ≡ some value → length value ≡ n

abbrev pub unwrap_or : {A : Type 0} → A → Option A → A
unwrap_or a none = a
unwrap_or a (some b) = b

abbrev pub keyspace : ℕ
keyspace = 32

abbrev pub batch_min_sz : ℕ
batch_min_sz = 0

abbrev pub batch_max_sz : ℕ
batch_max_sz = 16

abbrev pub value_max_sz : ℕ
value_max_sz = 16

module _ {U : Type 0} (un : Unstructured U) where
  open un use {int_in_range, bytes, arbitrary_bool, arbitrary_i32}

  -- `Config::arbitrary`; the path is made from a random name.
  unfoldable pub arbitrary_config : Bytes → U → Config × U
  arbitrary_config path u =
      let (uncompressed, u1) = arbitrary_bool u in
      let (level, u2) = arbitrary_i32 u1 in
      let compressed = not (unwrap_or false uncompressed) in
      let u3 = if compressed then u2 else u1 in
      let (target_file_size, u4) = int_in_range 1 1024 u3 in
      let (file_compaction_percent, u5) = int_in_range 0 99 u4 in
      (
        record default {
          path = path;
          target_file_size = unwrap_or 50 target_file_size;
          file_compaction_percent = unwrap_or 50 file_compaction_percent;
          zstd_compression_level = if compressed then some (unwrap_or (pos 3) level) else none;
        },
        u5,
      )

  -- A value, where there is to be one.
  unfoldable pub arbitrary_page : U → Option Bytes × U
  arbitrary_page u =
      let (present, u1) = arbitrary_bool u in
      let (len, u2) = int_in_range 0 value_max_sz u1 in
      let (value, u3) = bytes (unwrap_or 0 len) u2 in
      if unwrap_or true present
      then (some (unwrap_or (1 ∷ 2 ∷ 3 ∷ 4 ∷ 5 ∷ 6 ∷ 7 ∷ 8 ∷ []) value), u3)
      else (none, u1)

  -- The loop of `WriteBatch::arbitrary`: `pages` rounds, from `pid_default` on.
  unfoldable pub arbitrary_pages : ℕ → ℕ → Assoc (Option Bytes) → U → Assoc (Option Bytes) × U
  unfolding arbitrary_page insert
  arbitrary_pages zero pid_default batch u = (batch, u)
  arbitrary_pages (suc pages) pid_default batch u =
      let (pid, u1) = int_in_range 0 keyspace u in
      let (page, u2) = arbitrary_page u1 in
      arbitrary_pages pages (pid_default + 1) (insert (unwrap_or pid_default pid) page batch) u2

  unfoldable pub arbitrary_batch : U → Assoc (Option Bytes) × U
  unfolding arbitrary_pages
  arbitrary_batch u =
      let (pages, u1) = int_in_range batch_min_sz batch_max_sz u in
      arbitrary_pages (unwrap_or batch_min_sz pages) 0 [] u1

  -- `Op::arbitrary`, where the last case is unreachable.
  unfoldable pub arbitrary_op : U → Outcome Op × U
  unfolding arbitrary_batch
  arbitrary_op u =
      let (choice, u1) = int_in_range 0 2 u in
      let n = unwrap_or 0 choice in
      if n == 0
      then (ok gc, u1)
      else if n == 1
      then (let (batch, u2) = arbitrary_batch u1 in (ok (write_batch batch), u2))
      else if n == 2
      then (ok restart, u1)
      else (panic, u1)
