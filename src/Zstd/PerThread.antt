-- ===== src/Zstd/PerThread.antt =====
-- `ThreadLocalDict` (src/zstd.rs): one decompression context for each thread, made at the thread's first
-- read and kept. What a thread does between its calls is left out; the lock is held by one call at a
-- time, and an entry is used by its own thread only.
use marble.Prelude.{
  ℕ, ◌^◌, ◌<◌, ◌≡◌, refl, ◌∙◌, Option, none, some, [], ◌∷◌, All, Outcome, ok, err, panic, unwrap,
  lt→ltb, ◌==◌, Bool-cases, Option-cases, inl, inr,
}
use marble.Prelude.Assoc.{Assoc, lookup, insert}
use marble.Prelude.Bytes.{Bytes}
use marble.ReadPath.{uninit_boxed_slice}
use marble.Zstd as Codec
use marble.Zstd.{Zstd}

-- The contexts of the `zstd_safe` crate, which is not part of the repository. A context keeps the
-- dictionary that was loaded into it, and decompression depends on nothing else. Where the
-- size of the output stands in the frame, decompression into a buffer of that size is what `Zstd` has.
pub record Contexts (zstd : Zstd) (D : Type 0) : Type 0 where
  pub create : D
  pub load_dictionary : D → Bytes → Option D
  pub find_decompressed_size : Bytes → Option ℕ
  pub decompress : D → Bytes → ℕ → Option Bytes × D
  pub dictionary : D → Bytes
  pub dictionary-load_dictionary :
      (d d' : D) (bytes : Bytes) → load_dictionary d bytes ≡ some d' → dictionary d' ≡ bytes
  pub dictionary-decompress :
      (d : D) (buf : Bytes) (n : ℕ) → dictionary (decompress d buf n).1 ≡ dictionary d
  pub decompress_lem :
      (d : D) (buf : Bytes) (n : ℕ)
      → find_decompressed_size buf ≡ some n
      → (decompress d buf n).0 ≡ zstd.decompress (dictionary d) buf

-- `tls` maps the ids of threads to their contexts.
pub record ThreadLocalDict (D : Type 0) : Type 0 where
  pub dict_bytes : Bytes
  pub tls : Assoc D

module _ {zstd : Zstd} {D : Type 0} (contexts : Contexts zstd D) where
  -- `DictInABox::decompress`: the context is changed through its pointer.
  unfoldable pub decompress_in : D → Bytes → Outcome Bytes × D
  unfolding uninit_boxed_slice
  decompress_in d buf = elim (contexts.find_decompressed_size buf) [
    | none ↦ (panic, d)
    | some exact_size ↦ elim (uninit_boxed_slice exact_size) [
      | ok _ ↦ let (out, d') = contexts.decompress d buf exact_size in (unwrap out, d')
      | err e ↦ (panic, d)
      | panic ↦ (panic, d)
    ]
  ]

  -- `ThreadLocalDict::decompress`. A context that a panic interrupts is not kept.
  unfoldable pub decompress : ℕ → Bytes → ThreadLocalDict D → Outcome Bytes × ThreadLocalDict D
  unfolding decompress_in lookup insert
  decompress tid buf t = elim (lookup tid t.tls) [
    | some dict ↦
        let (ret, dict') = decompress_in dict buf in
        (ret, record t { tls = insert tid dict' t.tls })
    | none ↦ elim (contexts.load_dictionary contexts.create t.dict_bytes) [
      | none ↦ (panic, t)
      | some dict ↦
          let (ret, diab) = decompress_in dict buf in
          elim ret [
            | ok out ↦ (ok out, record t { tls = insert tid diab t.tls })
            | err e ↦ (err e, t)
            | panic ↦ (panic, t)
          ]
    ]
  ]

  -- Every context has the dictionary.
  abbrev pub IsLoaded : ThreadLocalDict D → Type 0
  IsLoaded t = All (λ (p : ℕ × D). contexts.dictionary p.1 ≡ t.dict_bytes) t.tls

  All-insert :
      (bytes : Bytes) (tid : ℕ) (d : D) (tls : Assoc D)
      → contexts.dictionary d ≡ bytes
      → All (λ (p : ℕ × D). contexts.dictionary p.1 ≡ bytes) tls
      → All (λ (p : ℕ × D). contexts.dictionary p.1 ≡ bytes) (insert tid d tls)
  unfolding insert
  All-insert bytes tid d [] loaded all = (loaded, tt)
  All-insert bytes tid d ((j, other) ∷ tls) loaded all = elim (Bool-cases (j == tid)) [
    | inl same ↦ rw same (loaded, all.1)
    | inr ne ↦ rw ne (all.0, All-insert bytes tid d tls loaded all.1)
  ]

  All-lookup :
      (bytes : Bytes) (tid : ℕ) (d : D) (tls : Assoc D)
      → All (λ (p : ℕ × D). contexts.dictionary p.1 ≡ bytes) tls
      → lookup tid tls ≡ some d
      → contexts.dictionary d ≡ bytes
  unfolding lookup
  All-lookup bytes tid d [] all e = absurd (cc)
  All-lookup bytes tid d ((j, other) ∷ tls) all e = elim (Bool-cases (j == tid)) [
    | inl same ↦ let eq : some other ≡ some d = rw same at e in cc (eq, all.0)
    | inr ne ↦ All-lookup bytes tid d tls all.1 (rw ne at e)
  ]

  module _ (buf : Bytes) (n : ℕ) (sized : contexts.find_decompressed_size buf ≡ some n)
      (fits : n < 2 ^ 63) where
    decompress_in_lem :
        (d : D) (bytes : Bytes)
        → contexts.dictionary d ≡ bytes
        → (d' : D) × (decompress_in d buf ≡ (Codec.decompress zstd (some bytes) buf, d'))
          × (contexts.dictionary d' ≡ bytes)
    unfolding decompress_in Codec.decompress
    decompress_in_lem d bytes loaded =
        let out = contexts.decompress_lem d buf n sized in
        (
          (contexts.decompress d buf n).1,
          rw (decompress_in, sized, lt→ltb n (2 ^ 63) fits, out, loaded) refl,
          contexts.dictionary-decompress d buf n ∙ loaded,
        )

    -- Decompression by way of a thread's context gives what the dictionary gives, whichever thread calls
    -- and whatever contexts are there, if each has the dictionary, the dictionary can be loaded, and the
    -- size of the output stands in the frame, below 2 ^ 63. If the frame cannot be decompressed both panic.
    -- Afterwards each context still has the dictionary.
    pub decompress-IsLoaded :
        (tid : ℕ) (t : ThreadLocalDict D) (dict : D)
        → IsLoaded t
        → contexts.load_dictionary contexts.create t.dict_bytes ≡ some dict
        → (t' : ThreadLocalDict D) × (decompress tid buf t
            ≡ (Codec.decompress zstd (some t.dict_bytes) buf, t'))
          × IsLoaded t'
          × (t'.dict_bytes ≡ t.dict_bytes)
    unfolding decompress Codec.decompress
    decompress-IsLoaded tid t dict all loads = elim (Option-cases (lookup tid t.tls)) [
      | inr (d, e) ↦
          let (d', r, loaded) =
            decompress_in_lem d t.dict_bytes (All-lookup t.dict_bytes tid d t.tls all e) in
          (
            record t { tls = insert tid d' t.tls },
            rw (decompress, e, r) refl,
            All-insert t.dict_bytes tid d' t.tls loaded all,
            refl,
          )
      | inl e ↦
          let (d', r, loaded) =
            decompress_in_lem dict t.dict_bytes
              (contexts.dictionary-load_dictionary contexts.create dict t.dict_bytes loads) in
          elim (Option-cases (zstd.decompress t.dict_bytes buf)) [
            | inl o ↦ (t, rw (decompress, e, loads, r, o) refl, all, refl)
            | inr (out, o) ↦ (
              record t { tls = insert tid d' t.tls },
              rw (decompress, e, loads, r, o, r) refl,
              All-insert t.dict_bytes tid d' t.tls loaded all,
              refl,
            )
          ]
    ]
