-- ===== src/FuzzModel/Agrees.antt =====
-- The fuzz target of fuzz/fuzz_targets/fuzz_model.rs passes on write batches.
use marble.Prelude.{
  ℕ, ◌+◌, ◌^◌, ◌<◌, ◌≡◌, refl, sym, ap, ◌∙◌, arith, true, Option, none, some, List, [], ◌∷◌, All,
  map, length, ok, inl, inr, ◌==◌, Bool-cases,
}
use marble.Prelude.Assoc.{Assoc, lookup, Distinct, lookup-entries}
use marble.Prelude.Bytes.{Bytes}
use marble.Config.{Config, validate}
use marble.Disk.Calm.{IsCalm}
use marble.FuzzModel.{write_batch, same_object, run_op, check_model, run_ops, fuzz_target}
use marble.ReadPath.Stored.{same_bytes_refl}
use marble.Store.{Objects, IsStore}
use marble.Store.After.{or_before}
use marble.Store.Batches.{objects_size, IsAccepted, All-insert_all}
use marble.Store.Empty.{no_objects, new_store, open_config-empty, new_store-IsStore}
use marble.Store.Promise.{after_batch, write_batch-IsStore}
use marble.Store.Read.{read-IsStore}
use marble.World.{Crates, World}
use marble.WritePath.Shards.Atomic.{insert_all, last_of, lookup-insert_all, Distinct-insert_all}

abbrev pub Batch : Type 0
Batch = Assoc (Option Bytes)

same_object_refl : (object : Option Bytes) → same_object object object ≡ true
unfolding same_object
same_object_refl none = refl
same_object_refl (some bytes) = same_bytes_refl bytes

abbrev or_else : Option (Option Bytes) → Option (Option Bytes) → Option (Option Bytes)
or_else none before = before
or_else (some object) before = some object

or_else-some :
    (o : Option (Option Bytes)) (object : Option Bytes) (before : Option (Option Bytes))
    → or_else o (some object) ≡ or_else (or_else o (some object)) before
or_else-some none object before = refl
or_else-some (some here) object before = refl

last_of_before :
    (k : ℕ) (batch : Batch) (before : Option (Option Bytes))
    → last_of k batch before ≡ or_else (last_of k batch none) before
last_of_before k [] before = refl
last_of_before k ((id, object) ∷ rest) before = elim (Bool-cases (id == k)) [
  | inl same ↦ rw same (
      last_of_before k rest (some object)
      ∙ or_else-some (last_of k rest none) object before
      ∙ ap (λ o. or_else o before) (sym (last_of_before k rest (some object))))
  | inr other ↦ rw other (last_of_before k rest before)
]

-- The model has what the store holds.
abbrev pub Models : Batch → Objects → Type 0
Models model objects =
    Distinct model
    × All (λ (p : ℕ × Option Bytes). p.0 < 2 ^ 64) model
    × ((k : ℕ) → objects k ≡ or_before (lookup k model) none)

or_before-or_else :
    (new old : Option (Option Bytes))
    → or_before new (or_before old none) ≡ or_before (or_else new old) none
or_before-or_else none old = refl
or_before-or_else (some object) old = refl

pub Models-insert_all :
    (batch model : Batch) (objects : Objects)
    → All (λ (p : ℕ × Option Bytes). p.0 < 2 ^ 64) batch
    → Models model objects
    → Models (insert_all batch model) (after_batch batch objects)
Models-insert_all batch model objects ids (distinct, model_ids, same) = (
  Distinct-insert_all batch model distinct,
  All-insert_all (λ (p : ℕ × Option Bytes). p.0 < 2 ^ 64) batch model ids model_ids,
  λ k.
      ap (or_before (last_of k batch none)) (same k)
      ∙ or_before-or_else (last_of k batch none) (lookup k model)
      ∙ ap (λ o. or_before o none)
          (sym (lookup-insert_all k batch model ∙ last_of_before k batch (lookup k model))),
)

pub Models-entries :
    (objects : Objects) (model part : Batch)
    → ((k : ℕ) → objects k ≡ or_before (lookup k model) none)
    → All (λ (p : ℕ × Option Bytes). lookup p.0 model ≡ some p.1) part
    → All (λ (p : ℕ × Option Bytes). objects p.0 ≡ p.1) part
Models-entries objects model [] same found = tt
Models-entries objects model ((k, v) ∷ part) same found =
    (same k ∙ ap (λ o. or_before o none) found.0, Models-entries objects model part same found.1)

module _ {T M : Type 0} (crates : Crates T M) (config : Config) where
  -- A read changes no more than two counters.
  abbrev pub with_reads : World T M → ℕ → ℕ → World T M
  with_reads w compressed decompressed = record w {
    compressed_bytes_read = compressed;
    decompressed_bytes_read = decompressed;
  }

  pub after_reads :
      (objects : Objects) (w : World T M) (compressed decompressed : ℕ)
      → IsStore crates objects w
      → IsStore crates objects (with_reads w compressed decompressed)
  after_reads objects w compressed decompressed s = record {
    calm = s.calm;
    descending = s.descending;
    below = s.below;
    counted = s.counted;
    small = s.small;
    ids = s.ids;
    words = s.words;
    shows = s.shows;
    names = s.names;
  }

  pub check_model_lem :
      (objects : Objects) (model : Batch) (w : World T M)
      → IsStore crates objects w
      → w.next_file_lsn < 2 ^ 62
      → All (λ (p : ℕ × Option Bytes). p.0 < 2 ^ 64) model
      → All (λ (p : ℕ × Option Bytes). objects p.0 ≡ p.1) model
      → (compressed decompressed : ℕ) × (check_model crates config model w
          ≡ (ok tt, with_reads w compressed decompressed))
  unfolding check_model
  check_model_lem objects [] w s room ids same =
      (w.compressed_bytes_read, w.decompressed_bytes_read, refl)
  check_model_lem objects ((pid, expected) ∷ rest) w s room ids same =
      let (compressed, decompressed, e) = read-IsStore crates w objects pid s ids.0 room in
      let (compressed', decompressed', e') =
        check_model_lem objects rest (with_reads w compressed decompressed)
          (after_reads objects w compressed decompressed s) room ids.1 same.1 in
      (compressed', decompressed', rw (e, same.0, same_object_refl expected, e') refl)

  -- The bytes of all batches, and 1 for each.
  abbrev pub total_size : List Batch → ℕ
  total_size [] = 0
  total_size (batch ∷ rest) = objects_size batch + 1 + total_size rest

  -- What `write_batch` accepts.
  abbrev pub IsWritable : Batch → Type 0
  IsWritable batch =
      All (λ (p : ℕ × Option Bytes). p.0 < 2 ^ 64) batch
      × All (IsAccepted config) batch
      × (length batch < 2 ^ 64)

  run_ops_lem :
      (batches : List Batch) (objects : Objects) (model : Batch) (w : World T M)
      → config.zstd_compression_level ≡ none
      → IsStore crates objects w
      → Models model objects
      → All IsWritable batches
      → w.next_file_lsn + total_size batches < 2 ^ 62
      → w.tmp_counter + length batches < 2 ^ 64
      → (w' : World T M) × (run_ops crates config (map write_batch batches) model w ≡ (ok tt, w'))
  unfolding run_ops run_op
  run_ops_lem [] objects model w plain s m fit room counter = (w, refl)
  run_ops_lem (batch ∷ rest) objects model w plain s m (fit, fits) room counter =
      let (w1, e1, s1, further) =
        write_batch-IsStore crates config objects batch w plain s fit.0 fit.1 fit.2
          (omega (arith, room)) (omega (arith, counter)) in
      let (distinct, ids, same) = Models-insert_all batch model objects fit.0 m in
      let (compressed, decompressed, e2) =
        check_model_lem (after_batch batch objects) (insert_all batch model) w1 s1
          (omega (arith, room, further.0)) ids
          (Models-entries (after_batch batch objects) (insert_all batch model)
            (insert_all batch model) same (lookup-entries (insert_all batch model) distinct)) in
      let (w3, e3) =
        run_ops_lem rest (after_batch batch objects) (insert_all batch model)
          (with_reads w1 compressed decompressed) plain
          (after_reads (after_batch batch objects) w1 compressed decompressed s1)
          (distinct, ids, same) fits (omega (arith, room, further.0))
          (omega (arith, counter, further.1)) in
      (w3, rw (e1, e2, e3) refl)

  -- The fuzz target passes all its assertions and returns on any sequence of write batches, if the
  -- directory is empty, no call of the system fails, the configuration is valid and compresses
  -- nothing, every object of the batches is accepted and every id fits a word, and the log and the
  -- counter of temporary names do not come to their ends: after each batch, a read of every id of
  -- the model gives what the model has.
  pub fuzz_target_lem :
      (batches : List Batch) (w : World T M)
      → config.zstd_compression_level ≡ none
      → validate config ≡ ok tt
      → IsCalm w.disk
      → w.disk.names ≡ []
      → All IsWritable batches
      → total_size batches + 1 < 2 ^ 62
      → w.tmp_counter + length batches < 2 ^ 64
      → (w' : World T M) × (fuzz_target crates config (map write_batch batches) w ≡ (ok tt, w'))
  unfolding fuzz_target
  fuzz_target_lem batches w plain valid calm empty fits room few =
      let opens = open_config-empty crates config w valid calm empty in
      let (w', e) =
        run_ops_lem batches no_objects [] (new_store crates w) plain
          (new_store-IsStore crates w calm empty) (tt, tt, λ k. refl) fits (omega (arith, room))
          (omega (arith, few)) in
      (w', rw (opens, e) refl)
