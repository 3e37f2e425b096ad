-- ===== src/Prelude/Bits.antt =====
-- `|` and `&` with one high bit, as arithmetic, at every width.
use Prim.Native.Nat.{
  ℕ, zero, suc, ◌+◌, ◌*◌, ◌/◌, ◌%◌, ◌^◌, ◌-◌, ◌≤◌, ◌<◌, min, max, bit_and, bit_or, digits,
  bit_and-bitwise, bit_or-bitwise,
}
use mathlib.Core.Path.{◌≡◌, refl, ap}
use native.Mathlib.Nat.{pow-suc, one-le-pow}
use native.Mathlib.Omega.{arith}

-- The digit recursion behind the native operations, at any sufficient fuel.
abbrev ors : ℕ → ℕ → ℕ → ℕ
ors = digits (λ b. b) max

abbrev ands : ℕ → ℕ → ℕ → ℕ
ands = digits (λ b. zero) min

ors_fuel : (n m a b : ℕ) → a ≤ n → a ≤ m → ors n a b ≡ ors m a b
ors_fuel zero zero a b p q = refl
ors_fuel zero (suc m) zero b p q = refl
ors_fuel zero (suc m) (suc a) b p q = absurd (omega arith)
ors_fuel (suc n) zero zero b p q = refl
ors_fuel (suc n) zero (suc a) b p q = absurd (omega arith)
ors_fuel (suc n) (suc m) zero b p q = refl
ors_fuel (suc n) (suc m) (suc a) b p q =
    omega (arith, ors_fuel n m (suc a / 2) (b / 2) (omega arith) (omega arith))

ands_fuel : (n m a b : ℕ) → a ≤ n → a ≤ m → ands n a b ≡ ands m a b
ands_fuel zero zero a b p q = refl
ands_fuel zero (suc m) zero b p q = refl
ands_fuel zero (suc m) (suc a) b p q = absurd (omega arith)
ands_fuel (suc n) zero zero b p q = refl
ands_fuel (suc n) zero (suc a) b p q = absurd (omega arith)
ands_fuel (suc n) (suc m) zero b p q = refl
ands_fuel (suc n) (suc m) (suc a) b p q =
    omega (arith, ands_fuel n m (suc a / 2) (b / 2) (omega arith) (omega arith))

zero-bit_or : (b : ℕ) → bit_or 0 b ≡ b
zero-bit_or b = bit_or-bitwise 0 b

zero-bit_and : (b : ℕ) → bit_and 0 b ≡ 0
zero-bit_and b = bit_and-bitwise 0 b

-- The lowest digit, and the others.
bit_or_digit : (a b : ℕ) → bit_or a b ≡ bit_or (a / 2) (b / 2) * 2 + max (a % 2) (b % 2)
bit_or_digit zero b = omega (arith, zero-bit_or b, zero-bit_or (b / 2))
bit_or_digit (suc a) b = omega (
  arith,
  bit_or-bitwise (suc a) b,
  bit_or-bitwise (suc a / 2) (b / 2),
  ors_fuel a (suc a / 2) (suc a / 2) (b / 2) (omega arith) (omega arith),
)

bit_and_digit : (a b : ℕ) → bit_and a b ≡ bit_and (a / 2) (b / 2) * 2 + min (a % 2) (b % 2)
bit_and_digit zero b = omega (arith, zero-bit_and b, zero-bit_and (b / 2))
bit_and_digit (suc a) b = omega (
  arith,
  bit_and-bitwise (suc a) b,
  bit_and-bitwise (suc a / 2) (b / 2),
  ands_fuel a (suc a / 2) (suc a / 2) (b / 2) (omega arith) (omega arith),
)

-- Setting a bit above the number adds it.
pub bit_or_above : (k a : ℕ) → a < 2 ^ k → bit_or a (2 ^ k) ≡ a + 2 ^ k
bit_or_above zero zero h = refl
bit_or_above zero (suc a) h = absurd (omega arith)
bit_or_above (suc k) a h = omega (
  arith,
  pow-suc 2 k,
  bit_or_digit a (2 ^ suc k),
  ap (λ (t : ℕ). bit_or (a / 2) t) (half k),
  bit_or_above k (a / 2) (omega (arith, pow-suc 2 k)),
)
  where
    half : (k : ℕ) → 2 ^ suc k / 2 ≡ 2 ^ k
    half k = omega (arith, pow-suc 2 k)

-- A mask whose lowest `k` bits are ones keeps these bits, and works on the others alone.
pub bit_and_below :
    (k q r h : ℕ)
    → r < 2 ^ k
    → bit_and (q * 2 ^ k + r) (h * 2 ^ k + (2 ^ k - 1)) ≡ bit_and q h * 2 ^ k + r
bit_and_below zero q zero h lt = ground arith
bit_and_below zero q (suc r) h lt = absurd (omega arith)
bit_and_below (suc k) q r h lt = ground (
  arith,
  pow-suc 2 k,
  one-le-pow k 2,
  bit_and_digit (q * 2 ^ suc k + r) (h * 2 ^ suc k + (2 ^ suc k - 1)),
  double q k,
  double h k,
  double (bit_and q h) k,
  bit_and_below k q (r / 2) h (omega (arith, pow-suc 2 k)),
)
  where
    double : (q k : ℕ) → q * 2 ^ suc k ≡ 2 * (q * 2 ^ k)
    double q k = omega (arith, ap (λ (t : ℕ). q * t) (pow-suc 2 k))
