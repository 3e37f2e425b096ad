-- ===== src/Trailer.antt =====
-- src/trailer.rs: the end of a storage file, with a checksum, the locations of the file's objects
-- and the dictionary that they were compressed with. `usize` is 64 bits wide and wraps around, as in
-- a release build.
pub mod RoundTrip
use marble.Prelude.{
  ℕ, zero, suc, ◌+◌, ◌*◌, ◌%◌, Bool, Option, none, some, List, [], ◌∷◌, ◌++◌, length, take, drop,
  Outcome, ok, err, panic, invalid_data, assert, guard, ◌>>=◌, ◌>>◌, ltb, ◌==◌, not, if◌then◌else◌,
}
use marble.Prelude.Bytes.{Bytes, u64_mod, to_le_bytes, from_le_bytes}
use marble.Prelude.Slices.{slice}
use marble.Crc32.{Crc32}
use marble.RelativeDiskLocation
use marble.RelativeDiskLocation.{RelativeDiskLocation}

abbrev pub Locations : Type 0
Locations = List (ℕ × RelativeDiskLocation)

-- The dictionary of a file, as far as it is stored: `ZstdDict` in src/zstd.rs without its
-- per-thread decompressors.
abbrev pub ZstdDict : Type 0
ZstdDict = Option Bytes

abbrev pub dict_bytes : Option Bytes → Bytes
dict_bytes none = []
dict_bytes (some bytes) = bytes

unfoldable pub entry_bytes : Locations → Bytes
unfolding RelativeDiskLocation.to_raw
entry_bytes [] = []
entry_bytes ((object_id, relative_location) ∷ rest) =
    to_le_bytes 8 object_id
    ++ (to_le_bytes 8 (RelativeDiskLocation.to_raw relative_location) ++ entry_bytes rest)

-- `buf[0..4].copy_from_slice(&crc_bytes)`
unfoldable pub seal : Crc32 → Bytes → Bytes
seal crc buf = to_le_bytes 4 (crc.hash (drop 4 buf)) ++ drop 4 buf

-- The bytes that `write_trailer` writes at the trailer's offset.
unfoldable pub trailer_bytes : Crc32 → Locations → Option Bytes → Bytes
unfolding seal
trailer_bytes crc locations dict_bytes_opt =
    let dict = dict_bytes dict_bytes_opt in
    seal crc (
      0
      ∷ 0
      ∷ 0
      ∷ 0
      ∷ (to_le_bytes 8 (length locations)
          ++ (to_le_bytes 8 (length dict) ++ (entry_bytes locations ++ dict))))

-- `buf.chunks(16)`; each round takes a byte at least, so `length buf` rounds are enough.
unfoldable pub chunks : ℕ → Bytes → List Bytes
chunks fuel [] = []
chunks zero (b ∷ bs) = []
chunks (suc fuel) (b ∷ bs) = take 16 (b ∷ bs) ∷ chunks fuel (drop 16 (b ∷ bs))

-- `sub_buf[..8]` and `sub_buf[8..]` make words only if `sub_buf` has 16 bytes.
unfoldable pub read_entries : List Bytes → Outcome Locations
unfolding RelativeDiskLocation.from_raw
read_entries [] = ok []
read_entries (sub_buf ∷ rest) = do
  assert (length sub_buf == 16)
  more ← read_entries rest
  ok (
      (
        from_le_bytes (take 8 sub_buf),
        RelativeDiskLocation.from_raw (from_le_bytes (drop 8 sub_buf)),
      )
      ∷ more)

unfoldable pub read_dict : Bytes → ℕ → ℕ → Outcome ZstdDict
read_dict buf start size =
    if ltb 0 size
    then (slice buf start ((start + size) % u64_mod) >>= λ dict. ok (some dict))
    else ok none

unfoldable pub read_trailer_from_buf : Crc32 → Bytes → Outcome (Locations × ZstdDict)
read_trailer_from_buf crc buf = do
  guard (not (ltb (length buf) 20)) invalid_data
  crc_buf ← slice buf 0 4
  guard (crc.hash (drop 4 buf) == from_le_bytes crc_buf) invalid_data
  offsets_buf ← slice buf 4 12
  size_buf ← slice buf 12 20
  let offsets = from_le_bytes offsets_buf
  let zstd_dict_size = from_le_bytes size_buf
  let offsets_end = (20 + offsets * 16 % u64_mod) % u64_mod
  entries ← slice buf 20 offsets_end
  ret ← read_entries (chunks (length entries) entries)
  zstd_dict ← read_dict buf offsets_end zstd_dict_size
  ok (ret, zstd_dict)
