-- ===== src/Crc32.antt =====
-- The `crc32fast` crate, which is not part of the repository, as an interface: a checksum of 32 bits.
-- `Hasher::update` documents that updates with parts are one update with the parts joined.
use marble.Prelude.{ℕ, ◌+◌, ◌%◌, ◌^◌, ◌<◌, [], ◌∷◌, arith}
use marble.Prelude.Bytes.{Bytes}

pub record Crc32 : Type 0 where
  pub hash : Bytes → ℕ
  pub hash-lt : (bytes : Bytes) → hash bytes < 2 ^ 32

-- A checksum for evaluation: the sum of the bytes.
abbrev pub byte_sum : Bytes → ℕ
byte_sum [] = 0
byte_sum (b ∷ bs) = (b + byte_sum bs) % 2 ^ 32

pub byte_sum-lt : (bytes : Bytes) → byte_sum bytes < 2 ^ 32
byte_sum-lt [] = omega arith
byte_sum-lt (b ∷ bs) = omega arith

abbrev pub sum_crc : Crc32
sum_crc = record { hash = byte_sum; hash-lt = byte_sum-lt }
