-- ===== src/FuzzModel/Generated.antt =====
-- What the generators of fuzz/fuzz_targets/fuzz_model.rs give: configurations that `open` accepts, and
-- operations of a bounded size.
use marble.Prelude.{
  ℕ, zero, suc, ◌+◌, ◌*◌, ◌^◌, ◌≤◌, ◌<◌, ◌≡◌, refl, arith, true, Option, none, some, [], All,
  length, ok, ◌==◌, inl, inr, Option-cases, Bool-cases,
}
use marble.Prelude.Assoc.{Assoc, insert}
use marble.Prelude.Bytes.{Bytes}
use marble.Config.{Config, validate, default}
use marble.FuzzModel.{Op, write_batch, gc, restart}
use marble.FuzzModel.Generate.{
  Unstructured, unwrap_or, arbitrary_config, arbitrary_page, arbitrary_pages, arbitrary_batch,
  arbitrary_op,
}
use marble.Store.Batches.{objects_size, record_size, IsAccepted, objects_size-insert, All-insert}

module _ {U : Type 0} (un : Unstructured U) where
  open un use {int_in_range, bytes, arbitrary_bool, int_in_range_lem, length-bytes}

  in_range :
      (low high d : ℕ) (u : U)
      → low ≤ d
      → d ≤ high
      → (low ≤ unwrap_or d (int_in_range low high u).0)
        × (unwrap_or d (int_in_range low high u).0 ≤ high)
  in_range low high d u ld dh = elim (Option-cases (int_in_range low high u).0) [
    | inl e ↦ rw e (ld, dh)
    | inr (n, e) ↦ rw e (int_in_range_lem low high n u (omega arith) e)
  ]

  abbrev pub IsShort : Option Bytes → Type 0
  IsShort none = Unit
  IsShort (some raw) = length raw ≤ 16

  -- An id of the key space with a short object, or a delete.
  abbrev pub IsWithinKeyspace : ℕ × Option Bytes → Type 0
  IsWithinKeyspace p = (p.0 ≤ 32) × IsShort p.1

  page-IsShort : (u : U) → IsShort (arbitrary_page un u).0
  unfolding arbitrary_page
  page-IsShort u = elim (Bool-cases (unwrap_or true (arbitrary_bool u).0)) [
    | inl e ↦
        let u1 = (arbitrary_bool u).1 in
        let len = unwrap_or 0 (int_in_range 0 16 u1).0 in
        let u2 = (int_in_range 0 16 u1).1 in
        elim (Option-cases (bytes len u2).0) [
          | inl b ↦ rw (e, b) (omega arith)
          | inr (value, b) ↦
              rw (e, b)
                (omega (
                  arith,
                  length-bytes len value u2 b,
                  in_range 0 16 0 u1 (omega arith) (omega arith),
                ))
        ]
    | inr e ↦ rw e tt
  ]

  -- At most `n` objects of ids below 64 bits, all short.
  module _ (config : Config) (large : 16 ≤ config.max_object_size) where
    record IsSmallBatch (n : ℕ) (batch : Assoc (Option Bytes)) : Type 0 where
      pub ids : All (λ (p : ℕ × Option Bytes). p.0 < 2 ^ 64) batch
      pub accepted : All (IsAccepted config) batch
      pub within : All IsWithinKeyspace batch
      pub size : objects_size batch ≤ 36 * n
      pub count : length batch ≤ n

    insert-IsSmallBatch :
        (n pid : ℕ) (page : Option Bytes) (batch : Assoc (Option Bytes))
        → pid ≤ 32
        → IsShort page
        → IsSmallBatch n batch
        → IsSmallBatch (n + 1) (insert pid page batch)
    insert-IsSmallBatch n pid page batch le short b =
        let (size, count) = objects_size-insert pid page batch in
        record {
          ids =
              All-insert (λ (p : ℕ × Option Bytes). p.0 < 2 ^ 64) pid page batch (omega arith)
                b.ids;
          accepted = All-insert (IsAccepted config) pid page batch (accepted page short) b.accepted;
          within =
              All-insert (λ (p : ℕ × Option Bytes). IsWithinKeyspace p) pid page batch
                (omega arith, short) b.within;
          size = omega (arith, size, b.size, small page short);
          count = omega (arith, count, b.count);
        }
      where
        accepted : (page : Option Bytes) → IsShort page → IsAccepted config (pid, page)
        accepted none short = tt
        accepted (some raw) short = omega (arith, short, large)

        small : (page : Option Bytes) → IsShort page → record_size page ≤ 36
        small none short = omega arith
        small (some raw) short = omega (arith, short)

    pages-IsSmallBatch :
        (pages pid_default n : ℕ) (batch : Assoc (Option Bytes)) (u : U)
        → pid_default + pages ≤ 16
        → IsSmallBatch n batch
        → IsSmallBatch (n + pages) (arbitrary_pages un pages pid_default batch u).0
    unfolding arbitrary_pages
    pages-IsSmallBatch zero pid_default n batch u le b = record {
      ids = b.ids;
      accepted = b.accepted;
      within = b.within;
      size = omega (arith, b.size);
      count = omega (arith, b.count);
    }
    pages-IsSmallBatch (suc pages) pid_default n batch u le b =
        let pid = unwrap_or pid_default (int_in_range 0 32 u).0 in
        let u1 = (int_in_range 0 32 u).1 in
        let page = (arbitrary_page un u1).0 in
        let bound = in_range 0 32 pid_default u (omega arith) (omega (arith, le)) in
        let rest =
          pages-IsSmallBatch pages (pid_default + 1) (n + 1) (insert pid page batch)
            (arbitrary_page un u1).1 (omega (arith, le))
            (insert-IsSmallBatch n pid page batch bound.1 (page-IsShort u1) b) in
        record {
          ids = rest.ids;
          accepted = rest.accepted;
          within = rest.within;
          size = omega (arith, rest.size);
          count = omega (arith, rest.count);
        }

    batch-IsSmallBatch : (u : U) → IsSmallBatch 16 (arbitrary_batch un u).0
    unfolding arbitrary_batch
    batch-IsSmallBatch u =
        let bound = in_range 0 16 0 u (omega arith) (omega arith) in
        let b =
          pages-IsSmallBatch (unwrap_or 0 (int_in_range 0 16 u).0) 0 0 [] (int_in_range 0 16 u).1
            (omega (arith, bound.1))
            (record {
              ids = tt;
              accepted = tt;
              within = tt;
              size = omega arith;
              count = omega arith;
            }) in
        record {
          ids = b.ids;
          accepted = b.accepted;
          within = b.within;
          size = omega (arith, b.size, bound.1);
          count = omega (arith, b.count, bound.1);
        }

  accepts :
      (target_file_size file_compaction_percent : ℕ) (config : Config)
      → config.target_file_size ≡ target_file_size
      → config.file_compaction_percent ≡ file_compaction_percent
      → 1 ≤ target_file_size
      → file_compaction_percent ≤ 99
      → validate config ≡ ok tt
  unfolding validate
  accepts target_file_size file_compaction_percent config t p some_size percent =
      ground (arith, t, p, some_size, percent)

  config-valid : (path : Bytes) (u : U) → validate (arbitrary_config un path u).0 ≡ ok tt
  unfolding arbitrary_config
  config-valid path u =
      accepts _ _ (arbitrary_config un path u).0 refl refl
        (in_range 1 1024 50 _ (omega arith) (omega arith)).0
        (in_range 0 99 50 _ (omega arith) (omega arith)).1

  config-large : (path : Bytes) (u : U) → 16 ≤ (arbitrary_config un path u).0.max_object_size
  unfolding arbitrary_config default
  config-large path u = omega arith

  -- What is generated: at most 16 short objects of the key space, which the store accepts, in a file of
  -- at most 852 bytes; or one of the other operations.
  abbrev pub IsGenerated : Config → Op → Type 0
  IsGenerated config (write_batch batch) =
      (length batch ≤ 16)
      × All IsWithinKeyspace batch
      × All (IsAccepted config) batch
      × (objects_size batch + (20 + length batch * 16) ≤ 852)
  IsGenerated config gc = Unit
  IsGenerated config restart = Unit

  op-IsGenerated :
      (config : Config) (v : U)
      → 16 ≤ config.max_object_size
      → (op : Op) × ((arbitrary_op un v).0 ≡ ok op) × IsGenerated config op
  unfolding arbitrary_op
  op-IsGenerated config v large =
      let n = unwrap_or 0 (int_in_range 0 2 v).0 in
      let v1 = (int_in_range 0 2 v).1 in
      let bound = in_range 0 2 0 v (omega arith) (omega arith) in
      elim (Bool-cases (n == 0)) [
        | inl e ↦ (gc, rw e refl, tt)
        | inr zero_not ↦ elim (Bool-cases (n == 1)) [
          | inl e ↦
              let b = batch-IsSmallBatch config large v1 in
              (
                write_batch (arbitrary_batch un v1).0,
                rw (zero_not, e) refl,
                (b.count, b.within, b.accepted, omega (arith, b.size, b.count)),
              )
          | inr one_not ↦
              let two : (n == 2) ≡ true = ground (arith, zero_not, one_not, bound.1) in
              (restart, rw (zero_not, one_not, two) refl, tt)
        ]
      ]

  -- Whatever bytes the fuzzer is given, and at whatever call they run out: the configuration that it
  -- generates is one that `open` accepts. The operation is a maintenance run, a restart, or a batch of at
  -- most 16 objects, each with an id of at most 32 and at most 16 bytes or a delete, all of them
  -- accepted by `write_batch`, with a file of at most 852 bytes. In particular the case of `Op::arbitrary`
  -- that is marked unreachable is never met.
  pub arbitrary_op-IsGenerated :
      (path : Bytes) (u v : U)
      → (validate (arbitrary_config un path u).0 ≡ ok tt)
        × ((op : Op) × ((arbitrary_op un v).0 ≡ ok op)
            × IsGenerated (arbitrary_config un path u).0 op)
  arbitrary_op-IsGenerated path u v =
      (config-valid path u, op-IsGenerated (arbitrary_config un path u).0 v (config-large path u))
