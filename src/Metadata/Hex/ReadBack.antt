-- ===== src/Metadata/Hex/ReadBack.antt =====
-- `from_str_radix` reads back what `format!` wrote.
use marble.Prelude.{
  ℕ, zero, suc, ◌+◌, ◌-◌, ◌*◌, ◌/◌, ◌%◌, ◌^◌, ◌≤◌, ◌<◌, ◌≡◌, ◌≢◌, refl, ap, ◌∙◌, ◌⊎◌, inl, inr,
  Bool-cases, Option-cases, arith, some, [], ◌∷◌, ◌++◌, length, All, All-append, ltb,
}
use native.Mathlib.Nat.{pow-suc}
use marble.Prelude.Bytes.{Bytes}
use marble.Metadata.Hex.{
  digit, to_digit, hex_digits, zeros, format_hex, read_digits, from_str_radix,
}

-- A digit as it is written: `0` to `9` or `a` to `f`.
unfoldable pub IsHex : ℕ → Type 0
IsHex c = ((b'0' ≤ c) × (c ≤ b'9')) ⊎ ((b'a' ≤ c) × (c ≤ b'f'))

digit-IsHex : (d : ℕ) → d < 16 → IsHex (digit d)
unfolding digit IsHex
digit-IsHex d h = ground arith

to_digit-digit : (d : ℕ) → d < 16 → to_digit (digit d) ≡ some d
unfolding digit to_digit
to_digit-digit d h = ground arith

hex_digits-IsHex : (fuel n : ℕ) → All IsHex (hex_digits fuel n)
unfolding hex_digits
hex_digits-IsHex zero n = tt
hex_digits-IsHex (suc fuel) n = elim (Bool-cases (ltb n 16)) [
  | inl e ↦ rw e (digit-IsHex n (ground arith), tt)
  | inr e ↦ rw e (
      All-append IsHex (hex_digits fuel (n / 16)) (digit (n % 16) ∷ [])
        (hex_digits-IsHex fuel (n / 16)) (digit-IsHex (n % 16) (omega arith), tt))
]

zeros-IsHex : (k : ℕ) → All IsHex (zeros k)
unfolding zeros IsHex
zeros-IsHex zero = tt
zeros-IsHex (suc k) = (inl (omega arith), zeros-IsHex k)

pub format_hex-IsHex : (width n : ℕ) → All IsHex (format_hex width n)
unfolding format_hex
format_hex-IsHex width n =
    All-append IsHex (zeros (width - length (hex_digits 16 n))) (hex_digits 16 n) (zeros-IsHex _)
      (hex_digits-IsHex 16 n)

-- Reading a list in two parts.
read_digits-append :
    (limit acc v : ℕ) (xs ys : Bytes)
    → read_digits limit acc xs ≡ some v
    → read_digits limit acc (xs ++ ys) ≡ read_digits limit v ys
unfolding read_digits
read_digits-append limit acc v [] ys e = ground arith
read_digits-append limit acc v (x ∷ xs) ys e = elim (Option-cases (to_digit x)) [
  | inl n ↦ ground arith
  | inr (d, s) ↦ ground (arith, read_digits-append limit (acc * 16 + d) v xs ys)
]

read_digit :
    (limit acc d : ℕ)
    → d < 16
    → acc * 16 + d < limit
    → read_digits limit acc (digit d ∷ []) ≡ some (acc * 16 + d)
unfolding read_digits
read_digit limit acc d h lt = ground (arith, to_digit-digit d h)

read_digits-hex_digits :
    (limit fuel n : ℕ)
    → n < 16 ^ fuel
    → 0 < fuel
    → n < limit
    → read_digits limit 0 (hex_digits fuel n) ≡ some n
unfolding hex_digits
read_digits-hex_digits limit zero n h p lt = absurd (omega arith)
read_digits-hex_digits limit (suc fuel) n h p lt = elim (Bool-cases (ltb n 16)) [
  | inl e ↦ rw e (read_digit limit 0 n (ground arith) (omega arith) ∙ ap some (omega arith))
  | inr e ↦ rw e (
      read_digits-append limit 0 (n / 16) (hex_digits fuel (n / 16)) (digit (n % 16) ∷ []) (
        read_digits-hex_digits limit fuel (n / 16) (omega (arith, pow-suc 16 fuel))
          (fuel_left fuel (ground arith) h) (omega arith))
      ∙ read_digit limit (n / 16) (n % 16) (omega arith) (omega arith)
      ∙ ap some (omega arith))
]
  where
    fuel_left : (f : ℕ) → 16 ≤ n → n < 16 ^ suc f → 0 < f
    fuel_left zero ge h = absurd (omega arith)
    fuel_left (suc f) ge h = omega arith

read_digits-zeros :
    (limit k : ℕ) (xs : Bytes)
    → 0 < limit
    → read_digits limit 0 (zeros k ++ xs) ≡ read_digits limit 0 xs
unfolding zeros read_digits to_digit
read_digits-zeros limit zero xs p = refl
read_digits-zeros limit (suc k) xs p = ground (arith, read_digits-zeros limit k xs)

pub read_digits-format_hex :
    (limit width n : ℕ) → n < 2 ^ 64 → n < limit → read_digits limit 0 (format_hex width n) ≡ some n
unfolding format_hex
read_digits-format_hex limit width n h lt =
    read_digits-zeros limit _ (hex_digits 16 n) (omega arith)
    ∙ read_digits-hex_digits limit 16 n (omega arith) (omega arith) lt

snoc-ne-nil : (xs : Bytes) (x : ℕ) → xs ++ (x ∷ []) ≢ []
snoc-ne-nil [] x e = cc
snoc-ne-nil (y ∷ xs) x e = cc

hex_digits-ne-nil : (fuel n : ℕ) → hex_digits (suc fuel) n ≢ []
unfolding hex_digits
hex_digits-ne-nil fuel n e = elim (Bool-cases (ltb n 16)) [
  | inl b ↦ cc (rw b at e)
  | inr b ↦ absurd (snoc-ne-nil (hex_digits fuel (n / 16)) (digit (n % 16)) (rw b at e))
]

pub format_hex-ne-nil : (width n : ℕ) → format_hex width n ≢ []
unfolding format_hex zeros
format_hex-ne-nil width n e = zeros_front (width - length (hex_digits 16 n)) e
  where
    zeros_front : (k : ℕ) → zeros k ++ hex_digits 16 n ≢ []
    zeros_front zero e = hex_digits-ne-nil 15 n e
    zeros_front (suc k) e = cc

-- Hexadecimal digits are read as they are.
from_str_radix-IsHex :
    (limit : ℕ) (xs : Bytes)
    → All IsHex xs
    → xs ≢ []
    → from_str_radix limit xs ≡ read_digits limit 0 xs
unfolding from_str_radix IsHex
from_str_radix-IsHex limit [] h ne = absurd (ne refl)
from_str_radix-IsHex limit (c ∷ []) h ne = ground arith
from_str_radix-IsHex limit (c ∷ d ∷ cs) h ne = ground arith

-- A number below 2 ^ 64 and below the limit is read back, whatever width it was written at.
pub from_str_radix-format_hex :
    (limit width n : ℕ)
    → n < 2 ^ 64
    → n < limit
    → from_str_radix limit (format_hex width n) ≡ some n
from_str_radix-format_hex limit width n h lt =
    from_str_radix-IsHex limit _ (format_hex-IsHex width n) (format_hex-ne-nil width n)
    ∙ read_digits-format_hex limit width n h lt
