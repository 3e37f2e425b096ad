-- ===== src/Zstd/Samples.antt =====
-- When `from_samples` trains a dictionary.
use marble.Prelude.{
  ℕ, ◌*◌, ◌/◌, ◌≡◌, ◌≤◌, ◌<◌, arith, refl, Option, none, some, List, [], ◌∷◌, length, length-append,
  ok, min, max, ltb, leb, Bool-cases, Option-cases, ◌⊎◌, inl, inr, ==_refl,
}
use marble.Prelude.Assoc.{Assoc}
use marble.Prelude.Bytes.{Bytes}
use marble.Zstd.{Zstd, samples_iter, sizes, sum, join, from_samples}

sum-sizes : (vs : List Bytes) → sum (sizes vs) ≡ length (join vs)
unfolding sum sizes join
sum-sizes [] = refl
sum-sizes (v ∷ vs) = omega (arith, length-append {0} v (join vs), sum-sizes vs)

length-sizes : (vs : List Bytes) → length (sizes vs) ≡ length vs
unfolding sizes
length-sizes [] = refl
length-sizes (v ∷ vs) = omega (arith, length-sizes vs)

-- What training made, without its length.
abbrev pub trained : Option (ℕ × Bytes) → Option Bytes
trained none = none
trained (some (len, dict_buf)) = some dict_buf

-- The size of the buffer for the dictionary of samples of `total_size` bytes.
abbrev pub buffer_size : ℕ → ℕ
buffer_size total_size = max (min (total_size / 100) (128 * 1024)) 4096

-- `from_samples` fails neither of its assertions. For fewer than 8 objects that are not empty, and
-- where their average size is 8 or less, it trains no dictionary. Otherwise it trains one of them
-- all, in a buffer of a hundredth of their size, but at least 4096 and at most 131072 bytes, both
-- included; what it returns is none if the training fails.
pub from_samples_cases :
    (zstd : Zstd) (samples : Assoc (Option Bytes))
    → ((from_samples zstd samples ≡ ok none)
        × ((length (samples_iter samples) < 8)
            ⊎ (length (join (samples_iter samples)) / length (samples_iter samples) ≤ 8)))
      ⊎ ((from_samples zstd samples
            ≡ ok (
                trained (
                  zstd.train
                    (buffer_size (length (join (samples_iter samples))))
                    (join (samples_iter samples))
                    (sizes (samples_iter samples)))))
          × (8 ≤ length (samples_iter samples))
          × (8 < length (join (samples_iter samples)) / length (samples_iter samples)))
unfolding from_samples
from_samples_cases zstd samples =
    let vs = samples_iter samples in
    rw (sum-sizes vs, length-sizes vs)
      (elim (Bool-cases (ltb (length vs) 8)) [
        | inl few ↦ inl (rw few, inl (ground arith))
        | inr many ↦ elim (Bool-cases (leb (length (join vs) / length vs) 8)) [
          | inl small ↦ inl (rw (many, small), inr (ground arith))
          | inr large ↦
              let size = buffer_size (length (join vs)) in
              elim (Option-cases (zstd.train size (join vs) (sizes vs))) [
                | inl e ↦ inr (
                  rw (many, large, ==_refl (length (join vs)), e) refl,
                  ground arith,
                  ground arith,
                )
                | inr ((len, dict_buf), e) ↦
                    let same = zstd.length-train size (join vs) (sizes vs) len dict_buf e in
                    inr (
                      rw
                          (
                            many,
                            large,
                            ==_refl (length (join vs)),
                            e,
                            same,
                            ==_refl (length dict_buf),
                          )
                          refl,
                      ground arith,
                      ground arith,
                    )
              ]
        ]
      ])
