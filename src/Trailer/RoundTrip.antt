-- ===== src/Trailer/RoundTrip.antt =====
-- `read_trailer_from_buf` on what `write_trailer` wrote.
use marble.Prelude.{
  ℕ, zero, suc, ◌+◌, ◌*◌, ◌%◌, ◌^◌, ◌≤◌, ◌<◌, ◌≡◌, refl, sym, ap, ap₂, ◌∙◌, arith, Option, none,
  some, List, [], ◌∷◌, ◌++◌, length, length-append, take-append_length, drop-append_length,
  append_assoc, append-nil, All, ok, le→not_ltb, lt→ltb, ==_refl, ◌⊎◌, inl, inr,
}
use marble.Prelude.Bytes.{
  Bytes, u64_mod, to_le_bytes, length-to_le_bytes, from_le_bytes-to_le_bytes,
}
use marble.Prelude.Slices.{slice, slice-append}
use marble.Crc32.{Crc32}
use marble.RelativeDiskLocation
use marble.RelativeDiskLocation.{RelativeDiskLocation}
use marble.Trailer.{
  Locations, ZstdDict, dict_bytes, entry_bytes, trailer_bytes, chunks, read_entries, read_dict,
  read_trailer_from_buf,
}

-- Object ids and location words are machine words.
abbrev pub IsWideEntry : ℕ × RelativeDiskLocation → Type 0
IsWideEntry e = (e.0 < 2 ^ 64) × (e.1.word < 2 ^ 64)

abbrev pub AreWide : Locations → Type 0
AreWide = All IsWideEntry

pub length-entry_bytes :
    (locations : Locations) → length (entry_bytes locations) ≡ 16 * length locations
unfolding entry_bytes
length-entry_bytes [] = refl
length-entry_bytes ((id, l) ∷ rest) = omega (
  arith,
  length-append {0} (to_le_bytes 8 id)
      (to_le_bytes 8 (RelativeDiskLocation.to_raw l) ++ entry_bytes rest),
  length-append {0} (to_le_bytes 8 (RelativeDiskLocation.to_raw l)) (entry_bytes rest),
  length-to_le_bytes 8 id,
  length-to_le_bytes 8 (RelativeDiskLocation.to_raw l),
  length-entry_bytes rest,
)

chunks_step :
    (fuel : ℕ) (xs ys : Bytes) → length xs ≡ 16 → chunks (suc fuel) (xs ++ ys) ≡ xs ∷ chunks fuel ys
unfolding chunks
chunks_step fuel [] ys h = absurd (omega arith)
chunks_step fuel (x ∷ xs) ys h =
    ap₂ (λ c r. c ∷ chunks fuel r) (take-append_length (x ∷ xs) ys 16 h)
      (drop-append_length (x ∷ xs) ys 16 h)

-- One entry of the offset table, as 16 bytes.
entry : ℕ → RelativeDiskLocation → Bytes
entry id l = to_le_bytes 8 id ++ to_le_bytes 8 l.word

length-entry : (id : ℕ) (l : RelativeDiskLocation) → length (entry id l) ≡ 16
unfolding entry
length-entry id l = omega (
  arith,
  length-append {0} (to_le_bytes 8 id) (to_le_bytes 8 l.word),
  length-to_le_bytes 8 id,
  length-to_le_bytes 8 l.word,
)

entry_bytes-cons :
    (id : ℕ) (l : RelativeDiskLocation) (rest : Locations)
    → entry_bytes ((id, l) ∷ rest) ≡ entry id l ++ entry_bytes rest
unfolding entry_bytes entry
entry_bytes-cons id l rest =
    sym (append_assoc (to_le_bytes 8 id) (to_le_bytes 8 l.word) (entry_bytes rest))

read_entries_step :
    (id : ℕ) (l : RelativeDiskLocation) (subs : List Bytes) (rest : Locations)
    → IsWideEntry (id, l)
    → read_entries subs ≡ ok rest
    → read_entries (entry id l ∷ subs) ≡ ok ((id, l) ∷ rest)
unfolding read_entries entry
read_entries_step id l subs rest w e = rw (
  length-entry id l,
  e,
  take-append_length (to_le_bytes 8 id) (to_le_bytes 8 l.word) 8 (length-to_le_bytes 8 id),
  drop-append_length (to_le_bytes 8 id) (to_le_bytes 8 l.word) 8 (length-to_le_bytes 8 id),
  from_le_bytes-to_le_bytes 8 id (omega arith),
  from_le_bytes-to_le_bytes 8 l.word (omega arith),
)

read_entries-entry_bytes :
    (locations : Locations) (fuel : ℕ)
    → AreWide locations
    → length locations ≤ fuel
    → read_entries (chunks fuel (entry_bytes locations)) ≡ ok locations
read_entries-entry_bytes [] fuel w h = unfold entry_bytes chunks read_entries in refl
read_entries-entry_bytes ((id, l) ∷ rest) zero w h = absurd (omega arith)
read_entries-entry_bytes ((id, l) ∷ rest) (suc fuel) w h =
    rw
      (
        entry_bytes-cons id l rest,
        chunks_step fuel (entry id l) (entry_bytes rest) (length-entry id l),
      )
      (read_entries_step id l _ rest w.0 (read_entries-entry_bytes rest fuel w.1 (omega arith)))

-- An empty dictionary is stored as none.
unfoldable pub stored_dict : Option Bytes → ZstdDict
stored_dict none = none
stored_dict (some []) = none
stored_dict (some (b ∷ bs)) = some (b ∷ bs)

nil_or_longer :
    (dict_opt : Option Bytes)
    → ((length (dict_bytes dict_opt) ≡ 0) × (stored_dict dict_opt ≡ none))
      ⊎ ((0 < length (dict_bytes dict_opt)) × (stored_dict dict_opt ≡ some (dict_bytes dict_opt)))
unfolding stored_dict
nil_or_longer none = inl (refl, refl)
nil_or_longer (some []) = inl (refl, refl)
nil_or_longer (some (b ∷ bs)) = inr (omega arith, refl)

mod_fits : (n : ℕ) → n < u64_mod → n % u64_mod ≡ n
mod_fits n h = omega arith

end_fits : (n m : ℕ) → 20 + n * 16 + m < u64_mod → (20 + n * 16 % u64_mod) % u64_mod ≡ 20 + n * 16
end_fits n m h = omega arith

module _ (crc : Crc32) (locations : Locations) (dict_opt : Option Bytes) where
  abbrev dict : Bytes
  dict = dict_bytes dict_opt

  -- What the checksum covers.
  abbrev body : Bytes
  body =
      to_le_bytes 8 (length locations)
      ++ (to_le_bytes 8 (length dict) ++ (entry_bytes locations ++ dict))

  abbrev crc_buf : Bytes
  crc_buf = to_le_bytes 4 (crc.hash body)

  trailer_bytes-eq : trailer_bytes crc locations dict_opt ≡ crc_buf ++ body
  unfolding trailer_bytes
  trailer_bytes-eq = refl

  length-body : length body ≡ 16 + 16 * length locations + length dict
  length-body = omega (
    arith,
    length-append {0} (to_le_bytes 8 (length locations))
        (to_le_bytes 8 (length dict) ++ (entry_bytes locations ++ dict)),
    length-append {0} (to_le_bytes 8 (length dict)) (entry_bytes locations ++ dict),
    length-append {0} (entry_bytes locations) dict,
    length-to_le_bytes 8 (length locations),
    length-to_le_bytes 8 (length dict),
    length-entry_bytes locations,
  )

  -- A trailer has 20 bytes, 16 more for each location, and those of the dictionary, as
  -- `expected_file_len` in src/writepath.rs counts them.
  pub length-trailer_bytes :
      length (trailer_bytes crc locations dict_opt)
      ≡ 4 + 8 + 8 + 16 * length locations + length dict
  length-trailer_bytes = rw trailer_bytes-eq (
      omega
        (arith, length-append {0} crc_buf body, length-to_le_bytes 4 (crc.hash body), length-body))

  slice_offsets : slice (crc_buf ++ body) 4 12 ≡ ok (to_le_bytes 8 (length locations))
  slice_offsets =
      slice-append crc_buf (to_le_bytes 8 (length locations)) _ 4 12
        (length-to_le_bytes 4 (crc.hash body))
        (omega
          (arith, length-to_le_bytes 4 (crc.hash body), length-to_le_bytes 8 (length locations)))

  abbrev head12 : Bytes
  head12 = crc_buf ++ to_le_bytes 8 (length locations)

  length-head12 : length head12 ≡ 12
  length-head12 = omega (
    arith,
    length-append {0} crc_buf (to_le_bytes 8 (length locations)),
    length-to_le_bytes 4 (crc.hash body),
    length-to_le_bytes 8 (length locations),
  )

  slice_size : slice (crc_buf ++ body) 12 20 ≡ ok (to_le_bytes 8 (length dict))
  slice_size =
      rw
        (← append_assoc crc_buf (to_le_bytes 8 (length locations))
          (to_le_bytes 8 (length dict) ++ (entry_bytes locations ++ dict)))
        (slice-append head12 (to_le_bytes 8 (length dict)) (entry_bytes locations ++ dict) 12 20
          length-head12 (omega (arith, length-head12, length-to_le_bytes 8 (length dict))))

  abbrev head20 : Bytes
  head20 = head12 ++ to_le_bytes 8 (length dict)

  length-head20 : length head20 ≡ 20
  length-head20 = omega (
    arith,
    length-append {0} head12 (to_le_bytes 8 (length dict)),
    length-head12,
    length-to_le_bytes 8 (length dict),
  )

  buf-head20 : crc_buf ++ body ≡ head20 ++ (entry_bytes locations ++ dict)
  buf-head20 =
      sym (append_assoc crc_buf (to_le_bytes 8 (length locations)) _)
      ∙ sym (append_assoc head12 (to_le_bytes 8 (length dict)) _)

  slice_entries :
      slice (crc_buf ++ body) 20 (20 + length locations * 16) ≡ ok (entry_bytes locations)
  slice_entries = rw buf-head20 (
      slice-append head20 (entry_bytes locations) dict 20 _ length-head20
        (omega (arith, length-head20, length-entry_bytes locations)))

  buf-dict : crc_buf ++ body ≡ (head20 ++ entry_bytes locations) ++ (dict ++ [])
  buf-dict =
      buf-head20
      ∙ sym (append_assoc head20 (entry_bytes locations) dict)
      ∙ ap (λ d. (head20 ++ entry_bytes locations) ++ d) (sym (append-nil dict))

  dict_by_offset :
      slice
        (crc_buf ++ body)
        (20 + length locations * 16)
        (20 + length locations * 16 + length dict)
      ≡ ok dict
  dict_by_offset = rw buf-dict (
      slice-append (head20 ++ entry_bytes locations) dict [] _ _
        (omega (
          arith,
          length-append {0} head20 (entry_bytes locations),
          length-head20,
          length-entry_bytes locations,
        ))
        (omega (
          arith,
          length-append {0} head20 (entry_bytes locations),
          length-head20,
          length-entry_bytes locations,
        )))

  read_dict_lem :
      20 + length locations * 16 + length dict < u64_mod
      → read_dict (crc_buf ++ body) (20 + length locations * 16) (length dict)
        ≡ ok (stored_dict dict_opt)
  unfolding read_dict
  read_dict_lem fits = elim (nil_or_longer dict_opt) [
    | inl (e, s) ↦ rw (e, s)
    | inr (lt, s) ↦
        rw
          (
            lt→ltb 0 (length dict) lt,
            mod_fits (20 + length locations * 16 + length dict) fits,
            dict_by_offset,
          )
          (ap ok (sym s))
  ]

  -- Recovery reads back the locations and the dictionary that `write_trailer` wrote, in their order,
  -- for words of 64 bits and a trailer shorter than 2 ^ 64. An empty dictionary is read as none.
  pub read_trailer-trailer_bytes :
      AreWide locations
      → 20 + length locations * 16 + length dict < u64_mod
      → read_trailer_from_buf crc (trailer_bytes crc locations dict_opt)
        ≡ ok (locations, stored_dict dict_opt)
  unfolding read_trailer_from_buf
  read_trailer-trailer_bytes w fits = rw (
    trailer_bytes-eq,
    le→not_ltb (length (crc_buf ++ body)) 20 (
        omega (
          arith,
          length-append {0} crc_buf body,
          length-to_le_bytes 4 (crc.hash body),
          length-body,
        )),
    slice-append [] crc_buf body 0 4 refl (omega (arith, length-to_le_bytes 4 (crc.hash body))),
    drop-append_length crc_buf body 4 (length-to_le_bytes 4 (crc.hash body)),
    from_le_bytes-to_le_bytes 4 (crc.hash body) (crc.hash-lt body),
    ==_refl (crc.hash body),
    slice_offsets,
    slice_size,
    from_le_bytes-to_le_bytes 8 (length locations) (omega arith),
    from_le_bytes-to_le_bytes 8 (length dict) (omega arith),
    end_fits (length locations) (length dict) fits,
    slice_entries,
    read_entries-entry_bytes locations (length (entry_bytes locations)) w
        (omega (arith, length-entry_bytes locations)),
    read_dict_lem fits,
  )
