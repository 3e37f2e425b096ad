-- ===== src/Prelude/Outcomes.antt =====
-- What a call comes to: a value, an `io::Error` by its kind, or a panic (`assert!`, `unwrap`,
-- `expect`, a slice out of range).
use mathlib.Core.Bool.{Bool, true, false}
use mathlib.Core.Option.{Option, none, some}

pub data ErrorKind : Type 0 where
  unsupported invalid_data other unexpected_eof fault : ErrorKind

pub data Outcome {ℓ} (A : Type ℓ) : Type ℓ where
  ok : A → Outcome A
  err : ErrorKind → Outcome A
  panic : Outcome A

infixl 5 ◌>>=◌ ◌>>◌
abbrev pub ◌>>=◌ {ℓ κ} : {A : Type ℓ} {B : Type κ} → Outcome A → (A → Outcome B) → Outcome B
ok a >>= f = f a
err e >>= f = err e
panic >>= f = panic

abbrev pub ◌>>◌ {ℓ} : {B : Type ℓ} → Outcome (Unit {0}) → Outcome B → Outcome B
m >> k = m >>= λ _. k

-- `assert!(b)`
abbrev pub assert : Bool → Outcome (Unit {0})
assert true = ok tt
assert false = panic

-- `if !b { return Err(e) }`
abbrev pub guard : Bool → ErrorKind → Outcome (Unit {0})
guard true e = ok tt
guard false e = err e

-- `o.unwrap()`, `o.expect(..)`
abbrev pub unwrap {ℓ} : {A : Type ℓ} → Option A → Outcome A
unwrap none = panic
unwrap (some a) = ok a
