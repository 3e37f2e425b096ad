-- ===== src/Tests/Promise.antt =====
-- The theorems on the store as a map, and on what is left of a failed write, at concrete inputs.
use marble.Prelude.{
  ℕ, ◌+◌, ◌≤◌, ◌==◌, none, some, Option, [], ◌∷◌, ◌≡◌, refl, sym, ap, subst, arith, map, ok,
  if◌then◌else◌,
}
use marble.Prelude.Assoc.{Assoc, lookup}
use marble.ObjectRecord.{record_bytes}
use marble.Prelude.Bytes.{Bytes, to_le_bytes}
use marble.Config.{validate}
use marble.ConcurrentMap.{Entries}
use marble.FuzzModel.{write_batch, fuzz_target}
use marble.FuzzModel.Agrees.{fuzz_target_lem}
use marble.PageTable.{function_pages}
use marble.Store.{IsStore}
use marble.Store.After.{updated}
use marble.Store.Batches.{objects_size, raw_encoding}
use marble.Store.Empty.{no_objects, new_store, new_store-IsStore}
use marble.Store.Promise.{after_batch, Advanced, write_batch-IsStore}
use marble.Store.Read.{Reads, read-IsStore}
use marble.Store.Write.{write_batch_inner-IsStore}
use marble.Tests.Setup.{crates, config, start}
use marble.Trailer.{Locations}
use marble.World.{FileAndMetadata, World}
use marble.WritePath.Batch.{write_batch_inner, uncompressed, choose_compression}
use marble.WritePath.Layout.{file_bytes}
use marble.WritePath.Objects.{output_object}
use marble.Zstd
use marble.WritePath.Install.{Installed, nothing_installed, install, undo}
use marble.WritePath.Install.Exact.{installed_word}
use marble.WritePath.Install.Undo.{install-undo}
use marble.WritePath.Shards

abbrev W : Type 0
W = World (ℕ → ℕ) (Entries FileAndMetadata)

-- An object, and a deleted one.
abbrev batch : Assoc (Option Bytes)
batch = (3, some (7 ∷ 8 ∷ [])) ∷ (5, none) ∷ []

start-IsStore : IsStore crates no_objects (new_store crates start)
start-IsStore = new_store-IsStore crates start refl refl

write_batch-IsStore_example :
    (w' : W) × (Shards.write_batch crates config batch (new_store crates start) ≡ (ok tt, w'))
    × IsStore crates (after_batch batch no_objects) w'
    × Advanced crates config (new_store crates start) w' (objects_size batch)
write_batch-IsStore_example =
    write_batch-IsStore crates config no_objects batch (new_store crates start) refl start-IsStore
      (omega arith, (omega arith, tt)) (omega arith, (tt, tt)) (omega arith) (omega arith)
      (omega arith)

write_batch_inner-IsStore_example :
    (w' : W) × (write_batch_inner crates config batch 0 [] (new_store crates start) ≡ (ok tt, w'))
    × IsStore crates (updated batch no_objects) w'
    × (w'.next_file_lsn ≡ 1 + 22 + 1)
    × (w'.tmp_counter ≡ 0 + 1)
unfolding choose_compression output_object Zstd.decompress file_bytes record_bytes to_le_bytes
write_batch_inner-IsStore_example =
    write_batch_inner-IsStore crates config no_objects (new_store crates start) raw_encoding batch
      uncompressed start-IsStore refl ((λ e. omega arith, tt), (tt, tt))
      (omega arith, (omega arith, tt)) (omega arith) refl (omega arith, refl, tt) (λ id raw e. refl)
      (omega arith) (omega arith)

-- The state after the batch.
abbrev written : W
written = (Shards.write_batch crates config batch (new_store crates start)).1

abbrev Written : W → Type 0
Written w = IsStore crates (after_batch batch no_objects) w × (w.next_file_lsn ≤ 24)

written-IsStore : Written written
written-IsStore =
    let (w', e, s, further) =
      write_batch-IsStore crates config no_objects batch (new_store crates start) refl start-IsStore
        (omega arith, (omega arith, tt)) (omega arith, (tt, tt)) (omega arith) (omega arith)
        (omega arith) in
    subst Written (sym (ap (λ p. p.1) e)) (s, omega (arith, further.0))

read-IsStore_example : Reads crates written 3 (some (7 ∷ 8 ∷ []))
read-IsStore_example =
    read-IsStore crates written (after_batch batch no_objects) 3 written-IsStore.0 (omega arith)
      (omega (arith, written-IsStore.1))

fuzz_target_lem_example :
    (w' : W) × (fuzz_target crates config (map write_batch (batch ∷ ((3, none) ∷ []) ∷ [])) start
      ≡ (ok tt, w'))
unfolding validate
fuzz_target_lem_example =
    fuzz_target_lem crates config (batch ∷ ((3, none) ∷ []) ∷ []) start refl refl refl refl
      (
        ((omega arith, (omega arith, tt)), (omega arith, (tt, tt)), omega arith),
        (((omega arith, tt), (tt, tt), omega arith), tt),
      )
      (omega arith) (omega arith)

-- A table in which id 3 has the location 8 and id 5 has none.
abbrev table : ℕ → ℕ
table k = if k == 3 then 8 else 0

abbrev locations : Locations
locations = (3, record { word = 0 }) ∷ (5, record { word = 4 }) ∷ []

install-undo_example :
    (t1 t2 : ℕ → ℕ) × (done : Installed) × (install function_pages [] 10 table locations
        nothing_installed
      ≡ ok (t1, done))
    × (undo function_pages 10 locations t1 done.replaced_locations ≡ ok t2)
    × ((k : ℕ)
        → t2 k ≡ (
            if table k == 0
            then installed_word function_pages 10 (lookup k locations) 0
            else table k))
install-undo_example =
    install-undo function_pages 10 locations table ((λ e. omega arith, tt), (tt, tt))
      ((omega arith, omega arith), ((omega arith, omega arith), tt))
