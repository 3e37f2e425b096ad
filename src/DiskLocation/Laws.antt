-- ===== src/DiskLocation/Laws.antt =====
-- What src/disk_location.rs keeps of a location, and where it panics.
use marble.Prelude.{ℕ, ◌+◌, ◌*◌, ◌^◌, ◌<◌, Bool, ok, panic, ◌>>=◌, ◌≡◌, ◌↔◌, arith, if◌then◌else◌}
use marble.DiskLocation
use marble.DiskLocation.{DiskLocation}
use marble.RelativeDiskLocation

-- The words of the two kinds of location.
abbrev pub word_of : ℕ → Bool → ℕ
word_of l d = if d then l * 2 + 1 else l * 2

pub new_lem :
    (l : ℕ) (d : Bool)
    → l < 2 ^ 63
    → 0 < word_of l d
    → DiskLocation.new l d ≡ ok (record { word = word_of l d })
unfolding DiskLocation.new
new_lem l d h p = ground arith

-- `DiskLocation::new` panics on a log sequence number exactly when it has its top bit set, or makes the
-- word 0 with the delete bit.
pub new_panics :
    (l : ℕ) (d : Bool)
    → l < 2 ^ 64
    → (DiskLocation.new l d ≡ panic) ↔ (((l < 2 ^ 63) × (0 < word_of l d)) → ⊥)
unfolding DiskLocation.new
new_panics l d h = ground arith

pub Relative-new_lem :
    (o : ℕ) (d : Bool)
    → o < 2 ^ 63
    → RelativeDiskLocation.new o d ≡ ok (record { word = word_of o d })
unfolding RelativeDiskLocation.new
Relative-new_lem o d h = ground arith

-- A relative location, moved to a file's base, keeps its offset from the base and its delete bit, if
-- the sum is below 2 ^ 63 and the word is not 0.
pub to_absolute-new :
    (o base : ℕ) (d : Bool)
    → o + base < 2 ^ 63
    → 0 < word_of (o + base) d
    → (RelativeDiskLocation.new o d >>= λ r. RelativeDiskLocation.to_absolute r base)
      ≡ ok (record { word = word_of (o + base) d })
unfolding RelativeDiskLocation.new RelativeDiskLocation.to_absolute
to_absolute-new o base d h p = ground arith

pub parts :
    (l : ℕ) (d : Bool) (w : DiskLocation)
    → w.word ≡ word_of l d
    → (DiskLocation.lsn w ≡ l) × (DiskLocation.is_delete w ≡ d)
unfolding DiskLocation.lsn DiskLocation.is_delete
parts l d w e = ground arith

-- A relative location in the file of a number.
abbrev pub absolute : ℕ → RelativeDiskLocation.RelativeDiskLocation → DiskLocation
absolute lsn r = record { word = lsn * 2 + r.word }

pub to_absolute_lem :
    (r : RelativeDiskLocation.RelativeDiskLocation) (lsn : ℕ)
    → 0 < lsn * 2 + r.word
    → lsn * 2 + r.word < 2 ^ 64
    → RelativeDiskLocation.to_absolute r lsn ≡ ok (absolute lsn r)
unfolding RelativeDiskLocation.to_absolute
to_absolute_lem r lsn p h = ground arith
