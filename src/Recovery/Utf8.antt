-- ===== src/Recovery/Utf8.antt =====
-- Which names of files `to_str` takes (src/recovery.rs): those that are UTF-8.
use marble.Prelude.{
  ℕ, zero, suc, ◌<◌, ◌≡◌, refl, Bool, true, false, ◌&&◌, Option, none, some, [], ◌∷◌, All, ltb, leb,
  if◌then◌else◌, lt→ltb,
}
use marble.Prelude.Bytes.{Bytes}

-- What follows the first byte of a character: how many bytes, and the bounds of the next one.
unfoldable pub bytes_after : ℕ → Option (ℕ × ℕ × ℕ)
bytes_after c =
    if ltb c 128
    then some (0, 128, 191)
    else if ltb c 194
    then none
    else if ltb c 224
    then some (1, 128, 191)
    else if ltb c 225
    then some (2, 160, 191)
    else if ltb c 237
    then some (2, 128, 191)
    else if ltb c 238
    then some (2, 128, 159)
    else if ltb c 240
    then some (2, 128, 191)
    else if ltb c 241
    then some (3, 144, 191)
    else if ltb c 244
    then some (3, 128, 191)
    else if ltb c 245
    then some (3, 128, 143)
    else none

-- `n` bytes are left of a character, and the next one of them is within the bounds.
unfoldable pub utf8_after : ℕ → ℕ → ℕ → Bytes → Bool
unfolding bytes_after
utf8_after zero low high [] = true
utf8_after (suc n) low high [] = false
utf8_after zero low high (c ∷ cs) = elim (bytes_after c) [
  | none ↦ false
  | some (n, low', high') ↦ utf8_after n low' high' cs
]
utf8_after (suc n) low high (c ∷ cs) = leb low c && leb c high && utf8_after n 128 191 cs

unfoldable pub is_utf8 : Bytes → Bool
unfolding utf8_after
is_utf8 name = utf8_after 0 128 191 name

ascii_after : (c : ℕ) → c < 128 → bytes_after c ≡ some (0, 128, 191)
unfolding bytes_after
ascii_after c h = rw (lt→ltb c 128 h) refl

ascii-utf8_after : (name : Bytes) → All (λ c. c < 128) name → utf8_after 0 128 191 name ≡ true
unfolding utf8_after
ascii-utf8_after [] h = refl
ascii-utf8_after (c ∷ cs) h = rw (utf8_after, ascii_after c h.0) (ascii-utf8_after cs h.1)

-- A name of ASCII characters is UTF-8.
pub ascii-is_utf8 : (name : Bytes) → All (λ c. c < 128) name → is_utf8 name ≡ true
unfolding is_utf8
ascii-is_utf8 name h = ascii-utf8_after name h
