-- ===== src/Recovery/Names.antt =====
-- Which names recovery takes for temporary files.
use marble.Prelude.{
  ℕ, ◌≡◌, ◌≢◌, refl, arith, true, [], ◌∷◌, ◌++◌, ◌<◌, All, All-append, append_assoc,
}
use marble.Prelude.Bytes.{Bytes}
use marble.Metadata.{Metadata, to_file_name}
use marble.Metadata.Hex.{format_hex}
use marble.Metadata.Hex.ReadBack.{IsHex, format_hex-IsHex, format_hex-ne-nil}
use marble.Recovery.Directory.{ends_with_tmp}
use marble.Recovery.Utf8.{is_utf8, ascii-is_utf8}
use marble.WritePath.Batch.{tmp_file_name, decimal}

abbrev tmp : Bytes
tmp = b't' ∷ b'm' ∷ b'p' ∷ []

ends_with_tmp-append : (xs : Bytes) → ends_with_tmp (xs ++ tmp) ≡ true
unfolding ends_with_tmp
ends_with_tmp-append [] = refl
ends_with_tmp-append (x ∷ xs) = ground (arith, ends_with_tmp-append xs)

last : Bytes → ℕ
last [] = 0
last (x ∷ []) = x
last (x ∷ y ∷ ys) = last (y ∷ ys)

last-of-tmp : (zs : Bytes) → ends_with_tmp zs ≡ true → last zs ≡ b'p'
unfolding ends_with_tmp last
last-of-tmp [] e = cc
last-of-tmp (a ∷ []) e = ground arith
last-of-tmp (a ∷ b ∷ []) e = ground (arith, last-of-tmp (b ∷ []))
last-of-tmp (a ∷ b ∷ c ∷ []) e = ground (arith, last-of-tmp (b ∷ c ∷ []))
last-of-tmp (a ∷ b ∷ c ∷ d ∷ r) e = ground (arith, last-of-tmp (b ∷ c ∷ d ∷ r))

last-append : (xs : Bytes) (y : ℕ) (ys : Bytes) → last (xs ++ y ∷ ys) ≡ last (y ∷ ys)
unfolding last
last-append [] y ys = refl
last-append (x ∷ []) y ys = refl
last-append (x ∷ z ∷ xs) y ys = last-append (z ∷ xs) y ys

last-IsHex : (y : ℕ) (ys : Bytes) → All IsHex (y ∷ ys) → IsHex (last (y ∷ ys))
unfolding last
last-IsHex y [] h = h.0
last-IsHex y (z ∷ zs) h = last-IsHex z zs h.1

last_after : (c : ℕ) (ys : Bytes) → All IsHex ys → ys ≢ [] → IsHex (last (c ∷ ys))
unfolding last
last_after c [] h ne = absurd (ne refl)
last_after c (y ∷ ys) h ne = last-IsHex y ys h

-- The last character of a file's name is a hexadecimal digit.
last-to_file_name : (m : Metadata) → IsHex (last (to_file_name m))
unfolding to_file_name
last-to_file_name m =
    let a = format_hex 16 m.lsn in
    let b = format_hex 16 m.trailer_offset in
    let c = format_hex 16 m.present_objects in
    let d = format_hex 1 m.generation in
    rw
      (
        last-append a b'-' (b ++ b'-' ∷ (c ++ b'-' ∷ d)),
        last-append (b'-' ∷ b) b'-' (c ++ b'-' ∷ d),
        last-append (b'-' ∷ c) b'-' d,
      )
      (last_after b'-' d (format_hex-IsHex 1 m.generation) (format_hex-ne-nil 1 m.generation))

not-IsHex_p : {c : ℕ} → c ≡ b'p' → IsHex c → ⊥
unfolding IsHex
not-IsHex_p e h = omega arith

-- Recovery takes the name that a file has while it is written for a temporary one, and the name that
-- the file gets in the end for no temporary one, whatever the counter and the metadata.
pub ends_with_tmp-file_names :
    (n : ℕ) (m : Metadata)
    → (ends_with_tmp (tmp_file_name n) ≡ true) × (ends_with_tmp (to_file_name m) ≢ true)
unfolding tmp_file_name
ends_with_tmp-file_names n m = (
  rw (← append_assoc (decimal 20 n) (b'-' ∷ []) tmp)
      (ends_with_tmp-append (decimal 20 n ++ (b'-' ∷ []))),
  λ e. not-IsHex_p (last-of-tmp (to_file_name m) e) (last-to_file_name m),
)

hex_ascii : (cs : Bytes) → All IsHex cs → All (λ c. c < 128) cs
unfolding IsHex
hex_ascii [] h = tt
hex_ascii (c ∷ cs) h = (ground (arith, h.0), hex_ascii cs h.1)

-- The name of a finished file is UTF-8.
pub to_file_name-is_utf8 : (m : Metadata) → is_utf8 (to_file_name m) ≡ true
unfolding to_file_name
to_file_name-is_utf8 m =
    let hex = λ (width n : ℕ). hex_ascii (format_hex width n) (format_hex-IsHex width n) in
    let ascii = λ (front back : Bytes). All-append (λ (c : ℕ). c < 128) front back in
    ascii-is_utf8 _ (
      ascii _ _ (hex 16 m.lsn) (
        omega arith,
        ascii _ _ (hex 16 m.trailer_offset)
            (omega arith, ascii _ _ (hex 16 m.present_objects) (omega arith, hex 1 m.generation)),
      ))
