-- ===== src/Zstd.antt =====
-- src/zstd.rs: when a batch gets a dictionary, and how objects are decompressed with one. The
-- `zstd_safe` crate is an interface. A `ZstdDict` is its bytes; the contexts that it keeps for each
-- thread are in Zstd/PerThread.antt.
pub mod Samples
pub mod PerThread
use marble.Prelude.{
  ℕ, ◌+◌, ◌*◌, ◌/◌, ◌≡◌, min, max, Bool, ◌||◌, Option, none, some, List, [], ◌∷◌, ◌++◌, length,
  Outcome, ok, panic, unwrap, assert, ◌>>=◌, ◌>>◌, ◌==◌, ltb, leb, if◌then◌else◌,
}
use marble.Prelude.Assoc.{Assoc}
use marble.Prelude.Bytes.{Bytes}
use marble.Prelude.Int.{ℤ}

-- `train max_size buffer sizes` is `train_from_buffer` on a buffer of that capacity: it returns the
-- length that it wrote, which becomes the buffer's, beside the buffer. `none` is an error of the library.
-- `decompress` is `find_decompressed_size` and `decompress` together, and none if either fails.
-- Decompressing with a dictionary undoes compressing with it, at any level.
pub record Zstd : Type 0 where
  pub train : ℕ → Bytes → List ℕ → Option (ℕ × Bytes)
  pub length-train :
      (max_size : ℕ) (buffer : Bytes) (sizes : List ℕ) (len : ℕ) (dict_buf : Bytes)
      → train max_size buffer sizes ≡ some (len, dict_buf)
      → len ≡ length dict_buf
  pub compress : Bytes → ℤ → Bytes → Option Bytes
  pub decompress : Bytes → Bytes → Option Bytes
  pub decompress-compress :
      (dict : Bytes) (level : ℤ) (raw out : Bytes)
      → compress dict level raw ≡ some out
      → decompress dict out ≡ some raw

-- `samples_iter`: neither deletions nor empty objects
unfoldable pub samples_iter : Assoc (Option Bytes) → List Bytes
samples_iter [] = []
samples_iter ((id, none) ∷ rest) = samples_iter rest
samples_iter ((id, some []) ∷ rest) = samples_iter rest
samples_iter ((id, some (b ∷ bs)) ∷ rest) = (b ∷ bs) ∷ samples_iter rest

unfoldable pub sizes : List Bytes → List ℕ
sizes [] = []
sizes (v ∷ vs) = length v ∷ sizes vs

unfoldable pub sum : List ℕ → ℕ
sum [] = 0
sum (n ∷ ns) = n + sum ns

unfoldable pub join : List Bytes → Bytes
join [] = []
join (v ∷ vs) = v ++ join vs

module _ (zstd : Zstd) where
  -- The average is not computed where there are fewer than 8 samples, so nothing is divided by 0.
  unfoldable pub from_samples : Assoc (Option Bytes) → Outcome (Option Bytes)
  unfolding samples_iter sizes sum join
  from_samples samples =
      let values = samples_iter samples in
      let total_size = sum (sizes values) in
      let max_size = max (min (total_size / 100) (128 * 1024)) 4096 in
      if ltb (length (sizes values)) 8 || leb (total_size / length (sizes values)) 8
      then ok none
      else do
        assert (sum (sizes values) == length (join values))
        elim (zstd.train max_size (join values) (sizes values)) [
          | none ↦ ok none
          | some (len, dict_buf) ↦ do assert (len == length dict_buf); ok (some dict_buf)
        ]

  -- `ZstdDict::decompress`; both `unwrap`s of the library's results panic.
  unfoldable pub decompress : Option Bytes → Bytes → Outcome Bytes
  decompress none buf = ok buf
  decompress (some dict) buf = unwrap (zstd.decompress dict buf)
