-- ===== src/LocationHasher.antt =====
-- `LocationHasher` of src/lib.rs: the hash of an id is the id. It takes a `u8` or a `u64`.
use marble.Prelude.{ℕ, Outcome, panic}
use marble.Prelude.Bytes.{Bytes}

pub record LocationHasher : Type 0 where
  pub state : ℕ

unfoldable pub default : LocationHasher
default = record { state = 0 }

unfoldable pub finish : LocationHasher → ℕ
finish h = h.state

unfoldable pub write_u8 : ℕ → LocationHasher → LocationHasher
write_u8 n h = record h { state = n }

unfoldable pub write_u64 : ℕ → LocationHasher → LocationHasher
write_u64 n h = record h { state = n }

-- Any other key is a mistake of the program.
unfoldable pub write : Bytes → LocationHasher → Outcome LocationHasher
write bytes h = panic
