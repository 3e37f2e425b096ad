-- ===== src/Metadata/Hex.antt =====
-- Numbers in hexadecimal, as `format!("{:0wx}")` writes them and `from_str_radix(_, 16)` reads them.
pub mod ReadBack
use marble.Prelude.{
  ℕ, zero, suc, ◌+◌, ◌-◌, ◌*◌, ◌/◌, ◌%◌, ◌^◌, ◌<◌, ◌≡◌, ◌≢◌, refl, sym, ap, ◌∙◌, arith, Bool, true,
  false, ◌&&◌, Option, none, some, List, [], ◌∷◌, ◌++◌, length, All, All-append, ltb, leb, ◌==◌,
  ==_iff, if◌then◌else◌,
}
use marble.Prelude.Bytes.{Bytes}

pub digit : ℕ → ℕ
digit d = if ltb d 10 then d + b'0' else d - 10 + b'a'

-- `char::to_digit(16)`: both cases are read
pub to_digit : ℕ → Option ℕ
to_digit c =
    if leb b'0' c && leb c b'9'
    then some (c - b'0')
    else if leb b'a' c && leb c b'f'
    then some (c - b'a' + 10)
    else if leb b'A' c && leb c b'F'
    then some (c - b'A' + 10)
    else none

-- The digits of a number, with no zero in front; `fuel` digits at most, and 16 are enough for a `u64`.
pub hex_digits : ℕ → ℕ → Bytes
hex_digits zero n = []
hex_digits (suc fuel) n =
    let front = hex_digits fuel (n / 16) in
    if ltb n 16 then digit n ∷ [] else front ++ (digit (n % 16) ∷ [])

pub zeros : ℕ → Bytes
zeros zero = []
zeros (suc k) = b'0' ∷ zeros k

-- `{:0width x}`: zeros in front up to the width
unfoldable pub format_hex : ℕ → ℕ → Bytes
unfolding hex_digits digit zeros
format_hex width n = let ds = hex_digits 16 n in zeros (width - length ds) ++ ds

-- `limit` is 2 ^ 64 for `u64` and 2 ^ 8 for `u8`: an overflow is an error.
pub read_digits : ℕ → ℕ → Bytes → Option ℕ
read_digits limit acc [] = some acc
read_digits limit acc (c ∷ cs) = elim (to_digit c) [
  | none ↦ none
  | some d ↦ if ltb (acc * 16 + d) limit then read_digits limit (acc * 16 + d) cs else none
]

-- One leading `+` is passed over, if something follows it.
unfoldable pub from_str_radix : ℕ → Bytes → Option ℕ
unfolding read_digits to_digit
from_str_radix limit [] = none
from_str_radix limit (c ∷ []) = if c == b'+' then none else read_digits limit 0 (c ∷ [])
from_str_radix limit (c ∷ d ∷ cs) =
    if c == b'+' then read_digits limit 0 (d ∷ cs) else read_digits limit 0 (c ∷ d ∷ cs)
