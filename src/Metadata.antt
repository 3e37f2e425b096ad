-- ===== src/Metadata.antt =====
-- src/lib.rs, `Metadata`: what a storage file's name says of it. Names are lists of bytes.
pub mod Hex
pub mod RoundTrip
use marble.Prelude.{ℕ, ◌^◌, ◌<◌, Option, none, some, List, [], ◌∷◌, ◌++◌, Bool, ◌==◌, if◌then◌else◌}
use marble.Prelude.Bytes.{Bytes}
use marble.Metadata.Hex.{from_str_radix, format_hex}

-- the `?` on an `Option`
infixl 5 ◌>>=◌
abbrev pub ◌>>=◌ {ℓ κ} : {A : Type ℓ} {B : Type κ} → Option A → (A → Option B) → Option B
none >>= f = none
some a >>= f = f a

pub record Metadata : Type 0 where
  pub lsn : ℕ
  pub trailer_offset : ℕ
  pub present_objects : ℕ
  pub generation : ℕ
  pub file_size : ℕ

-- `name.split("-")`: the pieces between the dashes, one at least
unfoldable pub split : Bytes → List Bytes
split [] = [] ∷ []
split (c ∷ cs) =
    let rest = split cs in
    if c == b'-'
    then [] ∷ rest
    else elim rest [ [] ↦ (c ∷ []) ∷ [] | piece ∷ more ↦ (c ∷ piece) ∷ more ]

-- The pieces after the fourth are not looked at.
unfoldable pub parse_pieces : List Bytes → ℕ → Option Metadata
parse_pieces (lsn ∷ trailer_offset ∷ present_objects ∷ generation ∷ more) file_size = do
  lsn ← from_str_radix (2 ^ 64) lsn
  trailer_offset ← from_str_radix (2 ^ 64) trailer_offset
  present_objects ← from_str_radix (2 ^ 64) present_objects
  generation ← from_str_radix (2 ^ 8) generation
  some (record {
    lsn = lsn;
    trailer_offset = trailer_offset;
    present_objects = present_objects;
    generation = generation;
    file_size = file_size;
  })
parse_pieces _ file_size = none

unfoldable pub parse : Bytes → ℕ → Option Metadata
unfolding split parse_pieces
parse name file_size = parse_pieces (split name) file_size

-- `{:016x}-{:016x}-{:016x}-{:01x}`
unfoldable pub to_file_name : Metadata → Bytes
to_file_name m =
    format_hex 16 m.lsn
    ++ b'-'
      ∷ (format_hex 16 m.trailer_offset
          ++ b'-' ∷ (format_hex 16 m.present_objects ++ b'-' ∷ format_hex 1 m.generation))
