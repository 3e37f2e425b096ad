-- ===== src/FileMap/Lsn.antt =====
-- The log sequence numbers that `FileMap::insert` gives (src/file_map.rs), and the mask by which
-- src/recovery.rs compares them.
use marble.Prelude.{
  zero, suc, ℕ, ◌+◌, ◌*◌, ◌%◌, ◌/◌, ◌^◌, ◌<◌, ◌≡◌, refl, ap, ◌∙◌, arith, Bool, true, false, bit_and,
}
use marble.Prelude.Bits.{bit_or_above, bit_and_below}
use marble.FileMap.{assign_lsn, new_write_batch_mask}

pub batch_lsn : (base : ℕ) → base < 2 ^ 62 → assign_lsn base false ≡ base + 2 ^ 62
unfolding assign_lsn
batch_lsn base h = bit_or_above 62 base h

pub copy_lsn : (base : ℕ) → assign_lsn base true ≡ base
unfolding assign_lsn
copy_lsn base = refl

-- The mask clears the batch bit of a number below 2 ^ 63.
bit_and-mask : (q r : ℕ) → q < 2 → r < 2 ^ 62 → bit_and (q * 2 ^ 62 + r) new_write_batch_mask ≡ r
bit_and-mask zero r hq hr = bit_and_below 62 0 r 2 hr ∙ omega arith
bit_and-mask (suc zero) r hq hr = bit_and_below 62 1 r 2 hr ∙ omega arith
bit_and-mask (suc (suc q)) r hq hr = absurd (omega arith)

pub mask-lt : (lsn : ℕ) → lsn < 2 ^ 63 → bit_and lsn new_write_batch_mask ≡ lsn % 2 ^ 62
mask-lt lsn h =
    ap (λ n. bit_and n new_write_batch_mask) (omega arith)
    ∙ bit_and-mask (lsn / 2 ^ 62) (lsn % 2 ^ 62) (omega arith) (omega arith)

-- While the log is shorter than 2 ^ 62, the number of a file fits a location and the mask gives back
-- the file's position in the log, for both kinds of files.
pub mask-assign_lsn :
    (base : ℕ) (is_gc : Bool)
    → base < 2 ^ 62
    → (assign_lsn base is_gc < 2 ^ 63)
      × (bit_and (assign_lsn base is_gc) new_write_batch_mask ≡ base)
mask-assign_lsn base true h = rw copy_lsn (omega arith, mask-lt base (omega arith) ∙ omega arith)
mask-assign_lsn base false h =
    rw (batch_lsn base h) (omega arith, mask-lt (base + 2 ^ 62) (omega arith) ∙ omega arith)

-- While the log is shorter than 2 ^ 62, files of one kind are ordered as in the log, and a file of a
-- user's batch has a greater number than a file of a maintenance run, also than one that comes later
-- in the log.
pub assign_lsn-order :
    (base base' : ℕ)
    → base < base'
    → base' < 2 ^ 62
    → (assign_lsn base true < assign_lsn base' true)
      × (assign_lsn base false < assign_lsn base' false)
      × (assign_lsn base true < assign_lsn base' false)
      × (assign_lsn base' true < assign_lsn base false)
assign_lsn-order base base' lt h =
    rw (copy_lsn base, copy_lsn base', batch_lsn base (omega arith), batch_lsn base' h)
      (omega arith, omega arith, omega arith, omega arith)
