-- ===== src/Prelude/Slices.antt =====
-- Slices `buf[a..b]`, which panic out of range.
use Prim.Native.Nat.{ℕ, ◌+◌, ◌-◌}
use mathlib.Core.Path.{◌≡◌}
use mathlib.Core.Bool.{◌&&◌}
use mathlib.Core.List.{List, ◌++◌}
use native.Mathlib.Omega.{arith}
use marble.Prelude.Tests.{leb, le→leb, if◌then◌else◌}
use marble.Prelude.Lists.{length, take, drop, length-append, take-append_length, drop-append_length}
use marble.Prelude.Outcomes.{Outcome, ok, panic}

module _ {ℓ} {A : Type ℓ} where
  unfoldable pub slice : List A → ℕ → ℕ → Outcome (List A)
  slice xs a b = if leb a b && leb b (length xs) then ok (take (b - a) (drop a xs)) else panic

  -- The middle part of a list in three parts.
  pub slice-append :
      (xs ys zs : List A) (a b : ℕ)
      → length xs ≡ a
      → length xs + length ys ≡ b
      → slice (xs ++ (ys ++ zs)) a b ≡ ok ys
  unfolding slice
  slice-append xs ys zs a b ha hb = rw (
    le→leb a b (omega arith),
    le→leb b (length (xs ++ (ys ++ zs)))
        (omega (arith, length-append {ℓ} xs (ys ++ zs), length-append {ℓ} ys zs)),
    drop-append_length xs (ys ++ zs) a ha,
    take-append_length ys zs (b - a) (omega arith),
  )
