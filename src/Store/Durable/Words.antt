-- ===== src/Store/Durable/Words.antt =====
-- The words that the files of a log give the ids, and the page table that recovery (src/recovery.rs)
-- makes of them.
use marble.Prelude.{
  ℕ, ◌+◌, ◌-◌, ◌*◌, ◌/◌, ◌^◌, ◌≤◌, ◌<◌, ◌≡◌, refl, ap, ◌∙◌, arith, Option, none, some, List, [],
  ◌∷◌, ◌==◌, ◌⊎◌, inl, inr, Option-cases, length, sym, Bool-cases,
}
use marble.Prelude.Assoc.{Assoc, lookup}
use marble.Prelude.Bytes.{Bytes}
use marble.Crc32.{Crc32}
use marble.DiskLocation
use marble.DiskLocation.{DiskLocation}
use marble.DiskLocation.Laws.{absolute}
use marble.FileMap.Lsn.{mask-lt}
use marble.PageTable.{PageTable}
use marble.Recovery.Directory.{masked_lsn}
use marble.Recovery.Order.{log_position, newest, Follow, IsLater}
use marble.RelativeDiskLocation.{RelativeDiskLocation}
use marble.Store.Durable.{LogFile, IsLog, log_word}
use marble.Store.Table.{IsWithin, IsWithin-lookup}
use marble.Trailer.{Locations}
use marble.Trailer.RoundTrip.{AreWide}
use marble.WritePath.Install.Exact.{installed_word}

module _ {T : Type 0} (pages : PageTable T) (crc : Crc32) (contents : ℕ → Bytes)
    (limit most : ℕ) where
  -- A word is 0, or lies between the first file's place and the end of the log.
  pub log_word-bounds :
      (next : ℕ) (fs : List LogFile) (k : ℕ)
      → IsLog crc contents limit most next fs
      → (log_word pages fs k ≡ 0)
        ⊎ ((2 ^ 63 ≤ log_word pages fs k) × (log_word pages fs k < (next + 2 ^ 62) * 2))
  unfolding log_word
  log_word-bounds next [] k log = inl refl
  log_word-bounds next (f ∷ fs) k (ends, whole, log) = elim (Option-cases (lookup k f.locations)) [
    | inl e ↦ elim (log_word-bounds f.base fs k log) [
      | inl zero_word ↦ inl (rw e zero_word)
      | inr (low, high) ↦ inr (rw e (low, omega (arith, ends, high)))
    ]
    | inr (r, e) ↦
        let within = IsWithin-lookup (length f.objects) k r f.locations whole.within e in
        inr (rw e (omega arith, omega (arith, ends, within)))
  ]

  pub log_word-lt :
      (next : ℕ) (fs : List LogFile) (k : ℕ)
      → IsLog crc contents limit most next fs
      → log_word pages fs k < (next + 2 ^ 62) * 2
  log_word-lt next fs k log = elim (log_word-bounds next fs k log) [
    | inl e ↦ omega (arith, e)
    | inr (low, high) ↦ high
  ]

lsn_half : (l : DiskLocation) → DiskLocation.lsn l ≡ l.word / 2
unfolding DiskLocation.lsn
lsn_half l = ground arith

-- The position in the log of a location in a batch's file.
pub position_lem :
    (l : DiskLocation) → 2 ^ 63 ≤ l.word → l.word < 2 ^ 64 → log_position l ≡ l.word / 2 - 2 ^ 62
unfolding masked_lsn
position_lem l low high = rw (lsn_half l) (mask-lt (l.word / 2) (omega arith) ∙ omega arith)

-- The entry that a trailer makes of the one before.
pub newest-from_raw :
    {T : Type 0} (pages : PageTable T) (lsn : ℕ) (o : Option RelativeDiskLocation) (old : ℕ)
    → 0 < lsn
    → newest lsn o (DiskLocation.from_raw old)
      ≡ DiskLocation.from_raw (installed_word pages lsn o old)
unfolding DiskLocation.from_raw
newest-from_raw pages lsn none old p = refl
newest-from_raw pages lsn (some r) old p = ground arith

pub from_raw-some :
    (word : ℕ) (l : DiskLocation)
    → DiskLocation.from_raw word ≡ some l
    → (l.word ≡ word) × (0 < word)
unfolding DiskLocation.from_raw
from_raw-some word l e = elim (Bool-cases (word == 0)) [
  | inl z ↦ absurd (cc (rw z at e))
  | inr p ↦
      let same : some (record { word = word }) ≡ some l = rw p at e in
      (sym (word_of_some same), ground arith)
]
  where
    word_of_some : some (record { word = word }) ≡ some l → word ≡ l.word
    word_of_some same = let eq : (record { word = word }) ≡ l = cc in ap (λ x. x.word) eq

-- The locations of a file follow those of the files before it.
module _ {T : Type 0} (pages : PageTable T) (crc : Crc32) (contents : ℕ → Bytes) (limit most : ℕ)
    (base n : ℕ) (fs : List LogFile) (log : IsLog crc contents limit most base fs)
    (room : base + n + 1 < 2 ^ 62) (table : Assoc DiskLocation)
    (same : (k : ℕ) → lookup k table ≡ DiskLocation.from_raw (log_word pages fs k)) where
  later :
      (id : ℕ) (l : DiskLocation)
      → (base + 2 ^ 62) * 2 ≤ l.word
      → l.word < 2 ^ 64
      → IsLater id l table
  later id l low high old e =
      let (at, pos) = from_raw-some (log_word pages fs id) old (sym (same id) ∙ e) in
      elim (log_word-bounds pages crc contents limit most base fs id log) [
        | inl zero_word ↦ absurd (omega (arith, zero_word, pos))
        | inr (above, below) ↦ omega (
          arith,
          position_lem l (omega (arith, low)) high,
          position_lem old (omega (arith, at, above)) (omega (arith, at, below, room)),
          at,
          above,
          below,
        )
      ]

  pub IsWithin-Follow :
      (locations : Locations) → IsWithin n locations → Follow (base + 2 ^ 62) table locations
  unfolding IsWithin
  IsWithin-Follow [] h = tt
  IsWithin-Follow ((id, r) ∷ rest) h = (
    (
      omega arith,
      omega (arith, h.0.1, room),
      later id (absolute (base + 2 ^ 62) r) (omega arith) (omega (arith, h.0.1, room)),
    ),
    IsWithin-Follow rest h.1,
  )

pub IsWithin-AreWide :
    (n : ℕ) (locations : Locations) → n < 2 ^ 62 → IsWithin n locations → AreWide locations
unfolding IsWithin
IsWithin-AreWide n [] p h = tt
IsWithin-AreWide n ((id, r) ∷ rest) p h =
    ((h.0.0, omega (arith, h.0.1)), IsWithin-AreWide n rest p h.1)
