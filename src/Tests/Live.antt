-- ===== src/Tests/Live.antt =====
-- The theorem on the live objects of `stats`, at a concrete state.
use marble.Prelude.{
  Option, ℕ, ◌%◌, ◌^◌, ◌≡◌, refl, sym, ap, subst, arith, not, none, some, [], ◌∷◌, ok, ◌==◌,
}
use marble.Prelude.Assoc.{Assoc}
use marble.Prelude.Bytes.{Bytes}
use marble.Prelude.Counting.{count_below}
use marble.ConcurrentMap.{Entries}
use marble.Stats
use marble.Stats.Live.{AllNamed, stats-live_objects}
use marble.Store.{IsStore}
use marble.Store.Empty.{no_objects, new_store, new_store-IsStore}
use marble.Store.Promise.{after_batch, write_batch-IsStore}
use marble.Tests.Setup.{crates, config, start}
use marble.World.{FileAndMetadata, World}
use marble.WritePath.Shards

abbrev W : Type 0
W = World (ℕ → ℕ) (Entries FileAndMetadata)

-- An object, and a deleted one.
abbrev batch : Assoc (Option Bytes)
batch = (3, some (7 ∷ 8 ∷ [])) ∷ (5, none) ∷ []

abbrev written : W
written = (Shards.write_batch crates config batch (new_store crates start)).1

written-IsStore : IsStore crates (after_batch batch no_objects) written
written-IsStore =
    let (w', e, s, further) =
      write_batch-IsStore crates config no_objects batch (new_store crates start) refl
        (new_store-IsStore crates start refl refl) (omega arith, (omega arith, tt))
        (omega arith, (tt, tt)) (omega arith) (omega arith) (omega arith) in
    subst (IsStore crates (after_batch batch no_objects)) (sym (ap (λ p. p.1) e)) s

written-AllNamed : AllNamed written.fams
unfolding Shards.write_batch AllNamed marble.WritePath.Objects.write_object
    marble.WritePath.Objects.output_object marble.RelativeDiskLocation.new
    marble.WritePath.Objects.write_delete marble.ConcurrentMap.lookup marble.ObjectRecord.hash
    marble.Prelude.Bytes.to_le_bytes marble.Trailer.entry_bytes marble.ConcurrentMap.place
    marble.FileMap.drop_claims
written-AllNamed = ((_, refl), tt)

stats-live_objects_example :
    (Stats.stats crates written).live_objects
    ≡ count_below (2 ^ 64) (λ k. not (written.location_table k == 0)) % 2 ^ 64
stats-live_objects_example =
    stats-live_objects crates (after_batch batch no_objects) written written-IsStore
      written-AllNamed
