-- ===== src/ConcurrentMap.antt =====
-- The `concurrent_map` crate as src/file_map.rs uses it, with keys `Reverse<DiskLocation>`: a sorted
-- map, in which the latest location comes first. The crate is not part of the repository; it
-- documents the operations of a `BTreeMap`, and the interface says what they do to the entries.
use marble.Prelude.{Option, none, some, List, [], ◌∷◌, ◌≡◌, refl, ltb, leb, ◌==◌, if◌then◌else◌}
use marble.DiskLocation.{DiskLocation}

abbrev pub Entries : Type 0 → Type 0
Entries V = List (DiskLocation × V)

module _ {V : Type 0} where
  unfoldable pub lookup : DiskLocation → Entries V → Option V
  lookup k [] = none
  lookup k ((j, v) ∷ es) = if j.word == k.word then some v else lookup k es

  -- In front of the first entry with an earlier key; an entry with the same key is replaced.
  unfoldable pub place : DiskLocation → V → Entries V → Entries V
  place k v [] = (k, v) ∷ []
  place k v ((j, w) ∷ es) =
      if j.word == k.word
      then (k, v) ∷ es
      else if ltb j.word k.word
      then (k, v) ∷ (j, w) ∷ es
      else (j, w) ∷ place k v es

  unfoldable pub erase : DiskLocation → Entries V → Entries V
  erase k [] = []
  erase k ((j, w) ∷ es) = if j.word == k.word then es else (j, w) ∷ erase k es

  -- The first entry, in the order of the map, whose key is no later than `k`.
  unfoldable pub first_from : DiskLocation → Entries V → Option (DiskLocation × V)
  first_from k [] = none
  first_from k ((j, w) ∷ es) = if leb j.word k.word then some (j, w) else first_from k es

-- `seek m k` is `m.range((Included(Reverse(k)), Unbounded)).next()`.
pub record ConcurrentMap (M V : Type 0) : Type 0 where
  pub empty : M
  pub insert : M → DiskLocation → V → M
  pub remove : M → DiskLocation → M
  pub get : M → DiskLocation → Option V
  pub seek : M → DiskLocation → Option (DiskLocation × V)
  pub entries : M → Entries V
  pub entries-empty : entries empty ≡ []
  pub entries-insert :
      (m : M) (k : DiskLocation) (v : V) → entries (insert m k v) ≡ place k v (entries m)
  pub entries-remove : (m : M) (k : DiskLocation) → entries (remove m k) ≡ erase k (entries m)
  pub get_lem : (m : M) (k : DiskLocation) → get m k ≡ lookup k (entries m)
  pub seek_lem : (m : M) (k : DiskLocation) → seek m k ≡ first_from k (entries m)

-- A map as its list of entries, for evaluation.
module _ {V : Type 0} where
  abbrev pub sorted_entries : ConcurrentMap (Entries V) V
  sorted_entries = record {
    empty = [];
    insert = λ m k v. place k v m;
    remove = λ m k. erase k m;
    get = λ m k. lookup k m;
    seek = λ m k. first_from k m;
    entries = λ m. m;
    entries-empty = refl;
    entries-insert = λ m k v. refl;
    entries-remove = λ m k. refl;
    get_lem = λ m k. refl;
    seek_lem = λ m k. refl;
  }
