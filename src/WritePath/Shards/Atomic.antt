-- ===== src/WritePath/Shards/Atomic.antt =====
-- A user's batch goes to one file, whatever its objects and the configuration, and the file has each
-- id's last object.
use marble.Prelude.{ℕ, ◌≡◌, refl, ap, ◌∙◌, Option, none, some, List, [], ◌∷◌, ◌==◌, if◌then◌else◌}
use marble.Prelude.Assoc.{Assoc, lookup, insert, lookup-insert, Distinct, Distinct-insert}
use marble.Prelude.Bytes.{Bytes}
use marble.Config.{Config}
use marble.DiskLocation.{DiskLocation}
use marble.WritePath.Shards.{
  Objects, Sharding, no_shards, size_and_shard, insert_object, add_object, add_objects, batches,
}

-- The objects of a list of pairs, a later pair in place of an earlier one.
unfoldable pub insert_all : List (ℕ × Option Bytes) → Objects → Objects
insert_all [] m = m
insert_all ((id, object) ∷ rest) m = insert_all rest (insert id object m)

-- What the list says last of an id.
abbrev pub last_of : ℕ → List (ℕ × Option Bytes) → Option (Option Bytes) → Option (Option Bytes)
last_of k [] before = before
last_of k ((id, object) ∷ rest) before = last_of k rest (if id == k then some object else before)

pub lookup-insert_all :
    (k : ℕ) (batch : List (ℕ × Option Bytes)) (m : Objects)
    → lookup k (insert_all batch m) ≡ last_of k batch (lookup k m)
unfolding insert_all
lookup-insert_all k [] m = refl
lookup-insert_all k ((id, object) ∷ rest) m =
    lookup-insert_all k rest (insert id object m)
    ∙ ap (last_of k rest) (lookup-insert id k object m)

pub Distinct-insert_all :
    (batch : List (ℕ × Option Bytes)) (m : Objects) → Distinct m → Distinct (insert_all batch m)
unfolding insert_all
Distinct-insert_all [] m d = d
Distinct-insert_all ((id, object) ∷ rest) m d =
    Distinct-insert_all rest (insert id object m) (Distinct-insert id object m d)

module _ (config : Config) (old_locations : Assoc DiskLocation) where
  -- One shard holds everything.
  abbrev IsSingle : Objects → Sharding → Type 0
  IsSingle objects s =
      (size : ℕ) × (s.shards ≡ (0, (size, objects)) ∷ []) × (s.fragmented_shards ≡ [])

  shard_zero : (id : ℕ) (object : Option Bytes) → (size_and_shard config 0 id object).1 ≡ 0
  unfolding size_and_shard
  shard_zero id none = refl
  shard_zero id (some bytes) = refl

  first-IsSingle :
      (id : ℕ) (object : Option Bytes)
      → IsSingle (insert id object []) (add_object config 0 old_locations id object no_shards)
  unfolding add_object insert_object
  first-IsSingle id object = (
    (insert_object id object (size_and_shard config 0 id object).0 (0, [])).0,
    rw (shard_zero id object),
    refl,
  )

  next-IsSingle :
      (id : ℕ) (object : Option Bytes) (m : Objects) (s : Sharding)
      → IsSingle m s
      → IsSingle (insert id object m) (add_object config 0 old_locations id object s)
  unfolding add_object insert_object
  next-IsSingle id object m s (size, e, f) = (
    (insert_object id object (size_and_shard config 0 id object).0 (size, m)).0,
    rw (shard_zero id object, e),
    f,
  )

  add_objects-IsSingle :
      (batch : List (ℕ × Option Bytes)) (m : Objects) (s : Sharding)
      → IsSingle m s
      → IsSingle (insert_all batch m) (add_objects config 0 old_locations batch s)
  unfolding add_objects insert_all
  add_objects-IsSingle [] m s single = single
  add_objects-IsSingle ((id, object) ∷ rest) m s single =
      add_objects-IsSingle rest (insert id object m) (add_object config 0 old_locations id object s)
        (next-IsSingle id object m s single)

  single_batches :
      (m : Objects) (s : Sharding) → IsSingle m s → batches s.shards s.fragmented_shards ≡ m ∷ []
  unfolding batches
  single_batches m s (size, e, f) = rw (e, f)

  -- All objects are in one shard, whatever its size.
  pub batches-insert_all :
      (id : ℕ) (object : Option Bytes) (rest : List (ℕ × Option Bytes))
      → batches
          (add_objects config 0 old_locations ((id, object) ∷ rest) no_shards).shards
          (add_objects config 0 old_locations ((id, object) ∷ rest) no_shards).fragmented_shards
        ≡ insert_all rest (insert id object []) ∷ []
  unfolding add_objects
  batches-insert_all id object rest =
      single_batches _
        (add_objects config 0 old_locations rest
          (add_object config 0 old_locations id object no_shards))
        (add_objects-IsSingle rest (insert id object [])
          (add_object config 0 old_locations id object no_shards) (first-IsSingle id object))

  -- A user's batch that is not empty makes one shard, which is one file, however large its objects
  -- are. The shard has no id twice, and has for each id what the batch says last of it.
  pub batches-write_batch :
      (id : ℕ) (object : Option Bytes) (rest : List (ℕ × Option Bytes))
      → (objects : Objects) × (batches
            (add_objects config 0 old_locations ((id, object) ∷ rest) no_shards).shards
            (add_objects config 0 old_locations ((id, object) ∷ rest) no_shards).fragmented_shards
          ≡ objects ∷ [])
        × Distinct objects
        × ((k : ℕ) → lookup k objects ≡ last_of k ((id, object) ∷ rest) none)
  unfolding lookup
  batches-write_batch id object rest = (
    insert_all rest (insert id object []),
    batches-insert_all id object rest,
    Distinct-insert_all rest (insert id object []) (Distinct-insert id object [] tt),
    λ k.
        lookup-insert_all k rest (insert id object [])
        ∙ ap (last_of k rest) (lookup-insert id k object []),
  )
