-- ===== src/ObjectRecord.antt =====
-- How one object lies in a storage file: a checksum of 4 bytes, the object's id and the length of what
-- follows in 8 bytes each, and the bytes of the object (src/lib.rs, src/writepath.rs).
pub mod Layout
use marble.Prelude.{ℕ, List, [], ◌∷◌, ◌++◌, length}
use marble.Prelude.Bytes.{Bytes, to_le_bytes}
use marble.Crc32.{Crc32}

abbrev pub header_len : ℕ
header_len = 20

-- `hash`: the updates of the hasher are one update with the parts joined.
unfoldable pub hash : Crc32 → Bytes → Bytes → Bytes → Bytes
hash crc len_buf pid_buf object_buf = to_le_bytes 4 (crc.hash (len_buf ++ (pid_buf ++ object_buf)))

abbrev pub len_buf : Bytes → Bytes
len_buf object = to_le_bytes 8 (length object)

-- The four parts in the order in which they are written.
unfoldable pub record_bytes : Crc32 → ℕ → Bytes → Bytes
unfolding hash
record_bytes crc object_id object =
    let pid_buf = to_le_bytes 8 object_id in
    hash crc (len_buf object) pid_buf object ++ (pid_buf ++ (len_buf object ++ object))
