-- ===== src/Metadata/RoundTrip.antt =====
-- File names: what `to_file_name` writes `parse` reads back, and recovery tells the names of finished
-- files from those of temporary ones.
use marble.Prelude.{◌^◌, ◌<◌, ◌≡◌, refl, arith, some, [], ◌∷◌, ◌++◌, All}
use marble.Prelude.Bytes.{Bytes}
use marble.Metadata.{Metadata, split, parse_pieces, parse, to_file_name}
use marble.Metadata.Hex.{format_hex}
use marble.Metadata.Hex.ReadBack.{IsHex, format_hex-IsHex, from_str_radix-format_hex}

-- The fields have the widths of their machine words.
pub record IsWide (m : Metadata) : Type 0 where
  pub lsn : m.lsn < 2 ^ 64
  pub trailer_offset : m.trailer_offset < 2 ^ 64
  pub present_objects : m.present_objects < 2 ^ 64
  pub generation : m.generation < 2 ^ 8

split-last : (xs : Bytes) → All IsHex xs → split xs ≡ xs ∷ []
unfolding split IsHex
split-last [] h = refl
split-last (x ∷ xs) h = ground (arith, split-last xs h.1)

split-dash : (xs ys : Bytes) → All IsHex xs → split (xs ++ b'-' ∷ ys) ≡ xs ∷ split ys
unfolding split IsHex
split-dash [] ys h = refl
split-dash (x ∷ xs) ys h = ground (arith, split-dash xs ys h.1)

-- A file name splits at its three dashes into the four numbers.
split-to_file_name :
    (m : Metadata)
    → split (to_file_name m)
      ≡ format_hex 16 m.lsn
        ∷ format_hex 16 m.trailer_offset
        ∷ format_hex 16 m.present_objects
        ∷ format_hex 1 m.generation
        ∷ []
unfolding to_file_name
split-to_file_name m = rw (
  split-dash (format_hex 16 m.lsn) _ (format_hex-IsHex 16 m.lsn),
  split-dash (format_hex 16 m.trailer_offset) _ (format_hex-IsHex 16 m.trailer_offset),
  split-dash (format_hex 16 m.present_objects) _ (format_hex-IsHex 16 m.present_objects),
  split-last (format_hex 1 m.generation) (format_hex-IsHex 1 m.generation),
)

-- The name of a file and its size give back all of its metadata, where the numbers in the name fit
-- 64 bits, and 8 bits for the generation.
pub parse-to_file_name : (m : Metadata) → IsWide m → parse (to_file_name m) m.file_size ≡ some m
unfolding parse parse_pieces
parse-to_file_name m w = rw (
  split-to_file_name m,
  from_str_radix-format_hex (2 ^ 64) 16 m.lsn w.lsn w.lsn,
  from_str_radix-format_hex (2 ^ 64) 16 m.trailer_offset w.trailer_offset w.trailer_offset,
  from_str_radix-format_hex (2 ^ 64) 16 m.present_objects w.present_objects w.present_objects,
  from_str_radix-format_hex (2 ^ 8) 1 m.generation (omega (arith, w.generation)) w.generation,
)
