-- ===== src/ObjectRecord/Layout.antt =====
-- A record's bytes.
use marble.Prelude.{
  ℕ, ◌+◌, ◌≡◌, sym, ap, ◌∙◌, arith, ◌++◌, append_assoc, length, take, drop, length-append,
  take-append_length, drop-append_length,
}
use marble.Prelude.Bytes.{Bytes, to_le_bytes, length-to_le_bytes}
use marble.Crc32.{Crc32}
use marble.ObjectRecord.{hash, len_buf, record_bytes}

module _ (crc : Crc32) (object_id : ℕ) (object : Bytes) where
  abbrev pub crc_buf : Bytes
  crc_buf = hash crc (len_buf object) (to_le_bytes 8 object_id) object

  abbrev pub header : Bytes
  header = crc_buf ++ (to_le_bytes 8 object_id ++ len_buf object)

  pub length-crc_buf : length crc_buf ≡ 4
  unfolding hash
  length-crc_buf = length-to_le_bytes 4 _

  pub length-header : length header ≡ 20
  length-header = omega (
    arith,
    length-append {0} crc_buf (to_le_bytes 8 object_id ++ len_buf object),
    length-append {0} (to_le_bytes 8 object_id) (len_buf object),
    length-crc_buf,
    length-to_le_bytes 8 object_id,
    length-to_le_bytes 8 (length object),
  )

  pub record_bytes-header : record_bytes crc object_id object ≡ header ++ object
  unfolding record_bytes
  record_bytes-header = sym (
      append_assoc crc_buf (to_le_bytes 8 object_id ++ len_buf object) object
      ∙ ap (λ r. crc_buf ++ r) (append_assoc (to_le_bytes 8 object_id) (len_buf object) object))

  pub length-record_bytes : length (record_bytes crc object_id object) ≡ 20 + length object
  length-record_bytes = omega (
    arith,
    ap (λ (b : Bytes). length b) record_bytes-header,
    length-append {0} header object,
    length-header,
  )

  pub header-crc : take 4 header ≡ crc_buf
  header-crc = take-append_length crc_buf _ 4 length-crc_buf

  pub header-pid : take 8 (drop 4 header) ≡ to_le_bytes 8 object_id
  header-pid =
      ap (take 8)
        (drop-append_length crc_buf (to_le_bytes 8 object_id ++ len_buf object) 4 length-crc_buf)
      ∙ take-append_length (to_le_bytes 8 object_id) (len_buf object) 8
          (length-to_le_bytes 8 object_id)

  pub header-len : drop 12 header ≡ len_buf object
  header-len =
      ap (drop 12) (sym (append_assoc crc_buf (to_le_bytes 8 object_id) (len_buf object)))
      ∙ drop-append_length (crc_buf ++ to_le_bytes 8 object_id) (len_buf object) 12 (
          omega (
            arith,
            length-append {0} crc_buf (to_le_bytes 8 object_id),
            length-crc_buf,
            length-to_le_bytes 8 object_id,
          ))
