-- ===== src/DiskLocation.antt =====
-- src/disk_location.rs: a place in the log, as one word. The top 63 bits are a log sequence number
-- and the lowest bit says that the object was deleted there. Every `u64` is a number below 2 ^ 64.
pub mod Laws
use marble.Prelude.{
  ℕ, ◌+◌, ◌*◌, ◌/◌, ◌%◌, ◌^◌, Bool, true, false, Option, none, some, Outcome, ok, panic, assert,
  ◌>>=◌, ◌>>◌, ltb, ◌==◌, if◌then◌else◌,
}
use marble.Prelude.Bytes.{u64_mod}

-- `location << 1` drops the top bit; the assertion refuses a location that has it.
unfoldable pub shift_location : ℕ → Bool → Outcome ℕ
shift_location location is_delete = do
  assert (location * 2 % u64_mod / 2 == location)
  ok (if is_delete then location * 2 % u64_mod + 1 else location * 2 % u64_mod)

unfoldable pub unshift_location : ℕ → ℕ × Bool
unshift_location location =
    if location % 2 == 1 then (location / 2, true) else (location / 2, false)

-- `NonZeroU64`: `nonzero` refuses 0.
pub record DiskLocation : Type 0 where
  pub word : ℕ

unfoldable pub nonzero : ℕ → Option DiskLocation
nonzero u = if u == 0 then none else some (record { word = u })

unfoldable pub new : ℕ → Bool → Outcome DiskLocation
unfolding shift_location nonzero
new location is_delete = do
  word ← shift_location location is_delete
  elim (nonzero word) [ none ↦ panic | some l ↦ ok l ]

unfoldable pub new_fam : ℕ → Outcome DiskLocation
unfolding new
new_fam location = new location false

-- `DiskLocation::from_raw`; 0 is the empty entry of the location table
unfoldable pub from_raw : ℕ → Option DiskLocation
unfolding nonzero
from_raw u = nonzero u

unfoldable pub to_raw : DiskLocation → ℕ
to_raw l = l.word

unfoldable pub lsn : DiskLocation → ℕ
unfolding unshift_location
lsn l = (unshift_location l.word).0

unfoldable pub is_delete : DiskLocation → Bool
unfolding unshift_location
is_delete l = (unshift_location l.word).1
