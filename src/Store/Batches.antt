-- ===== src/Store/Batches.antt =====
-- `write_batch` (src/writepath.rs) without compression, from the user's list of pairs to the map.
use marble.Prelude.{
  ℕ, ◌+◌, ◌≤◌, ◌≡◌, refl, arith, false, Option, none, some, List, [], ◌∷◌, All, length, ok, ◌==◌,
  Bool-cases, inl, inr,
}
use marble.Prelude.Assoc.{Assoc, insert}
use marble.Prelude.Bytes.{Bytes}
use marble.Config.{Config}
use marble.Crc32.{Crc32}
use marble.World.{Crates}
use marble.WritePath.Batch.{is_empty, choose_compression, uncompressed}
use marble.WritePath.Layout.{file_bytes, Writable, length-record_and_rest}
use marble.WritePath.Objects.{output_object}
use marble.WritePath.Shards.Atomic.{insert_all}

-- The bytes of an object's record, and of all records of a batch.
abbrev pub record_size : Option Bytes → ℕ
record_size none = 0
record_size (some raw) = 20 + length raw

abbrev pub objects_size : List (ℕ × Option Bytes) → ℕ
objects_size [] = 0
objects_size ((id, object) ∷ rest) = record_size object + objects_size rest

abbrev pub raw_encoding : Bytes → Bytes
raw_encoding raw = raw

pub length-file_bytes :
    (crc : Crc32) (objects : Assoc (Option Bytes))
    → length (file_bytes crc raw_encoding objects) ≡ objects_size objects
unfolding file_bytes
length-file_bytes crc [] = refl
length-file_bytes crc ((id, none) ∷ rest) = omega (arith, length-file_bytes crc rest)
length-file_bytes crc ((id, some raw) ∷ rest) =
    omega (arith, length-record_and_rest crc raw_encoding id raw rest, length-file_bytes crc rest)

-- A batch makes no more objects than it has pairs, and no larger ones.
pub objects_size-insert :
    (id : ℕ) (object : Option Bytes) (m : Assoc (Option Bytes))
    → (objects_size (insert id object m) ≤ objects_size m + record_size object)
      × (length (insert id object m) ≤ length m + 1)
unfolding insert
objects_size-insert id object [] = (omega arith, omega arith)
objects_size-insert id object ((j, other) ∷ m) = elim (Bool-cases (j == id)) [
  | inl same ↦ (rw same (omega arith), rw same (omega arith))
  | inr ne ↦
      let (size, count) = objects_size-insert id object m in
      (rw ne (omega (arith, size)), rw ne (omega (arith, count)))
]

pub objects_size-insert_all :
    (batch : List (ℕ × Option Bytes)) (m : Assoc (Option Bytes))
    → (objects_size (insert_all batch m) ≤ objects_size m + objects_size batch)
      × (length (insert_all batch m) ≤ length m + length batch)
unfolding insert_all
objects_size-insert_all [] m = (omega arith, omega arith)
objects_size-insert_all ((id, object) ∷ rest) m =
    let (size, count) = objects_size-insert_all rest (insert id object m) in
    let (size1, count1) = objects_size-insert id object m in
    (omega (arith, size, size1), omega (arith, count, count1))

module _ (P : ℕ × Option Bytes → Type 0) where
  pub All-insert :
      (id : ℕ) (object : Option Bytes) (m : Assoc (Option Bytes))
      → P (id, object)
      → All P m
      → All P (insert id object m)
  unfolding insert
  All-insert id object [] p h = (p, tt)
  All-insert id object ((j, other) ∷ m) p h = elim (Bool-cases (j == id)) [
    | inl same ↦ rw same (p, h.1)
    | inr ne ↦ rw ne (h.0, All-insert id object m p h.1)
  ]

  pub All-insert_all :
      (batch : List (ℕ × Option Bytes)) (m : Assoc (Option Bytes))
      → All P batch
      → All P m
      → All P (insert_all batch m)
  unfolding insert_all
  All-insert_all [] m h hm = hm
  All-insert_all ((id, object) ∷ rest) m h hm =
      All-insert_all rest (insert id object m) h.1 (All-insert id object m h.0 hm)

pub insert-is_empty :
    (id : ℕ) (object : Option Bytes) (m : Assoc (Option Bytes))
    → is_empty (insert id object m) ≡ false
unfolding insert
insert-is_empty id object [] = refl
insert-is_empty id object ((j, other) ∷ m) = elim (Bool-cases (j == id)) [
  | inl same ↦ rw same refl
  | inr ne ↦ rw ne refl
]

pub insert_all-is_empty :
    (batch : List (ℕ × Option Bytes)) (m : Assoc (Option Bytes))
    → is_empty m ≡ false
    → is_empty (insert_all batch m) ≡ false
unfolding insert_all
insert_all-is_empty [] m e = e
insert_all-is_empty ((id, object) ∷ rest) m e =
    insert_all-is_empty rest (insert id object m) (insert-is_empty id object m)

-- An object that `write_batch` accepts, with its id.
abbrev pub IsAccepted : Config → ℕ × Option Bytes → Type 0
IsAccepted config (id, none) = Unit
IsAccepted config (id, some raw) = length raw ≤ config.max_object_size

module _ {T M : Type 0} (crates : Crates T M) (config : Config) where
  open crates use {crc, zstd}

  pub accepted-Writable :
      (file : ℕ) (m : Assoc (Option Bytes))
      → All (IsAccepted config) m
      → Writable crates config none file raw_encoding m
  unfolding output_object
  accepted-Writable file [] h = tt
  accepted-Writable file ((id, none) ∷ rest) h = accepted-Writable file rest h.1
  accepted-Writable file ((id, some raw) ∷ rest) h = (h.0, refl, accepted-Writable file rest h.1)

  pub choose_none :
      (m : Assoc (Option Bytes))
      → config.zstd_compression_level ≡ none
      → choose_compression zstd config m ≡ ok uncompressed
  unfolding choose_compression
  choose_none m e = rw e refl
