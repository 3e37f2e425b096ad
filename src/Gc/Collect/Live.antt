-- ===== src/Gc/Collect/Live.antt =====
-- The loop over a file's objects on a file that the write path wrote.
use marble.Prelude.{
  ℕ, ◌+◌, ◌^◌, ◌≤◌, ◌<◌, ◌≡◌, refl, sym, ap, ◌∙◌, arith, ◌++◌, append_assoc, length, length-append,
  take-append_length, drop-append_length, ok, err, invalid_data, le→not_ltb, le→leb,
}
use marble.Prelude.Bytes.{Bytes, from_le_bytes-to_le_bytes}
use marble.Config.{Config}
use marble.Gc.Collect.{Collected, read_exact, collect_object}
use marble.ObjectRecord.{record_bytes}
use marble.ObjectRecord.Layout.{header, length-header, record_bytes-header, header-len}
use marble.Trailer.{ZstdDict}
use marble.World.{FileAndMetadata, Crates}

read_exact_part :
    (buf front part back : Bytes) (offset len : ℕ)
    → buf ≡ front ++ (part ++ back)
    → length front ≡ offset
    → length part ≡ len
    → read_exact buf offset len ≡ ok part
unfolding read_exact
read_exact_part buf front part back offset len e hf hp = rw (
  e,
  drop-append_length front (part ++ back) offset hf,
  take-append_length part back len hp,
  le→leb (offset + len) (length (front ++ (part ++ back)))
      (omega (arith, length-append {0} front (part ++ back), length-append {0} part back)),
)

module _ {T M : Type 0} (crates : Crates T M) (config : Config) (table : T) (fam : FileAndMetadata)
    (zstd_dict : ZstdDict) (id : ℕ) (buf front output back : Bytes) (c : Collected) where
  open crates use {pages, crc, zstd}

  abbrev pub Holds : Type 0
  Holds = buf ≡ front ++ (record_bytes crc id output ++ back)

  pub read_header : Holds → read_exact buf (length front) 20 ≡ ok (header crc id output)
  read_header holds =
      read_exact_part buf front (header crc id output) (output ++ back) _ 20
        (holds
          ∙ ap (λ r. front ++ (r ++ back)) (record_bytes-header crc id output)
          ∙ ap (λ r. front ++ r) (append_assoc (header crc id output) output back))
        refl (length-header crc id output)

  pub read_body : Holds → read_exact buf (length front + 20) (length output) ≡ ok output
  read_body holds =
      read_exact_part buf (front ++ header crc id output) output back _ (length output)
        (holds
          ∙ ap (λ r. front ++ (r ++ back)) (record_bytes-header crc id output)
          ∙ ap (λ r. front ++ r) (append_assoc (header crc id output) output back)
          ∙ sym (append_assoc front (header crc id output) (output ++ back)))
        (omega (arith, length-append {0} front (header crc id output), length-header crc id output))
        refl

  -- Where a file holds the intact record of an object of `max_object_size` bytes or more, maintenance
  -- refuses it as corrupt.
  pub collect_object-too_large :
      Holds
      → config.max_object_size ≤ length output
      → length output < 2 ^ 64
      → collect_object crates config table fam zstd_dict buf (length front) c ≡ err invalid_data
  unfolding collect_object
  collect_object-too_large holds large fits = rw (
    read_header holds,
    header-len crc id output,
    from_le_bytes-to_le_bytes 8 (length output) (omega arith),
    le→not_ltb (length output) config.max_object_size large,
  )
