-- ===== src/Prelude/Counting.antt =====
-- How many numbers below a bound pass a test.
use Prim.Native.Nat.{ℕ, zero, suc, ◌+◌, ◌≤◌, ◌<◌}
use mathlib.Core.Path.{◌≡◌, refl}
use mathlib.Core.Logic.{◌≢◌, inl, inr}
use mathlib.Core.Bool.{Bool, true, false, ◌||◌}
use native.Mathlib.Omega.{arith}
use marble.Prelude.Tests.{◌==◌, Bool-cases, ==_iff}

abbrev pub bit : Bool → ℕ
bit true = 1
bit false = 0

pub count_below : ℕ → (ℕ → Bool) → ℕ
count_below zero test = 0
count_below (suc n) test = bit (test n) + count_below n test

pub count_below-ext :
    (n : ℕ) (p q : ℕ → Bool) → ((k : ℕ) → k < n → p k ≡ q k) → count_below n p ≡ count_below n q
unfolding count_below
count_below-ext zero p q h = refl
count_below-ext (suc n) p q h =
    omega (arith, bit-eq (h n (omega arith)), count_below-ext n p q (λ k lt. h k (omega arith)))
  where
    bit-eq : p n ≡ q n → bit (p n) ≡ bit (q n)
    bit-eq e = rw e refl

-- A change at one number.
pub count_below-change :
    (n i : ℕ) (p q : ℕ → Bool)
    → i < n
    → ((k : ℕ) → k ≢ i → p k ≡ q k)
    → count_below n q + bit (p i) ≡ count_below n p + bit (q i)
unfolding count_below
count_below-change zero i p q lt h = absurd (omega arith)
count_below-change (suc n) i p q lt h = elim (Bool-cases (n == i)) [
  | inl e ↦
      let same : n ≡ i = (==_iff n i).0 e in
      rw same (omega (arith, count_below-ext i p q (λ k l. h k (omega arith))))
  | inr e ↦
      let other : n ≢ i = ground (arith, e) in
      let step : bit (p n) ≡ bit (q n) = rw (h n other) refl in
      omega (arith, step, count_below-change n i p q (omega arith) h)
]

pub count_below-none : (n : ℕ) (p : ℕ → Bool) → ((k : ℕ) → p k ≡ false) → count_below n p ≡ 0
unfolding count_below
count_below-none zero p h = refl
count_below-none (suc n) p h = rw (h n) (omega (arith, count_below-none n p h))

pub count_below-pos : (n i : ℕ) (p : ℕ → Bool) → i < n → p i ≡ true → 0 < count_below n p
unfolding count_below
count_below-pos zero i p lt h = absurd (omega arith)
count_below-pos (suc n) i p lt h = elim (Bool-cases (n == i)) [
  | inl e ↦ rw ((==_iff n i).0 e, h) (omega arith)
  | inr e ↦ omega (arith, count_below-pos n i p (ground (arith, e)) h)
]

pub count_below_mono :
    (n : ℕ) (p q : ℕ → Bool)
    → ((k : ℕ) → p k ≡ true → q k ≡ true)
    → count_below n p ≤ count_below n q
unfolding count_below
count_below_mono zero p q h = omega arith
count_below_mono (suc n) p q h = elim (Bool-cases (p n)) [
  | inl e ↦ rw (e, h n e) (omega (arith, count_below_mono n p q h))
  | inr e ↦ rw e (omega (arith, count_below_mono n p q h))
]

-- How many numbers pass one of two tests that exclude each other.
pub count_below_or :
    (n : ℕ) (p q : ℕ → Bool)
    → ((k : ℕ) → p k ≡ true → q k ≡ false)
    → count_below n p + count_below n q ≡ count_below n (λ k. p k || q k)
unfolding count_below
count_below_or zero p q h = refl
count_below_or (suc n) p q h = elim (Bool-cases (p n)) [
  | inl e ↦ rw (e, h n e) (omega (arith, count_below_or n p q h))
  | inr e ↦ rw e (omega (arith, count_below_or n p q h))
]
