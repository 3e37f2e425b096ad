-- ===== src/RelativeDiskLocation.antt =====
-- src/disk_location.rs, `RelativeDiskLocation`: a location counted from the base of its file.
use marble.Prelude.{ℕ, ◌+◌, Bool, Outcome, ok, assert, ◌>>=◌, ◌>>◌, ltb}
use marble.Prelude.Bytes.{u64_mod}
use marble.DiskLocation
use marble.DiskLocation.{shift_location, unshift_location}

pub record RelativeDiskLocation : Type 0 where
  pub word : ℕ

unfoldable pub new : ℕ → Bool → Outcome RelativeDiskLocation
unfolding shift_location
new offset is_delete = do word ← shift_location offset is_delete; ok (record { word = word })

unfoldable pub to_raw : RelativeDiskLocation → ℕ
to_raw l = l.word

unfoldable pub from_raw : ℕ → RelativeDiskLocation
from_raw raw = record { word = raw }

unfoldable pub is_delete : RelativeDiskLocation → Bool
unfolding unshift_location
is_delete l = (unshift_location l.word).1

-- `offset.checked_add(base).unwrap()`
unfoldable pub to_absolute : RelativeDiskLocation → ℕ → Outcome DiskLocation.DiskLocation
unfolding unshift_location DiskLocation.new
to_absolute l base = do
  assert (ltb ((unshift_location l.word).0 + base) u64_mod)
  DiskLocation.new ((unshift_location l.word).0 + base) (unshift_location l.word).1
