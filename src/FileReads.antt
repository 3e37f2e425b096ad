-- ===== src/FileReads.antt =====
-- `read_range_at` of src/lib.rs, and `read_trailer` of src/trailer.rs, which reads a file's end by it.
use marble.Prelude.{ℕ, ◌^◌, assert, ltb}
use marble.Prelude.Bytes.{Bytes}
use marble.Disk
use marble.Exec.{Exec, ◌>>=◌, ◌>>◌, lift}
use marble.FileMap.{sub64}
use marble.Trailer.{Locations, ZstdDict, read_trailer_from_buf}
use marble.World.{Crates, World, on_disk}

module _ {T M : Type 0} (crates : Crates T M) where
  open crates use {crc}

  -- `Vec::with_capacity` panics on what `isize` cannot hold.
  unfoldable pub read_range_at : ℕ → ℕ → ℕ → Exec (World T M) Bytes
  unfolding Disk.read_exact_at
  read_range_at file start end = do
    let buf_sz = sub64 end start
    lift (assert (ltb buf_sz (2 ^ 63)))
    on_disk (Disk.read_exact_at file start buf_sz)

  unfoldable pub read_trailer : ℕ → ℕ → ℕ → Exec (World T M) (Locations × ZstdDict)
  unfolding read_range_at read_trailer_from_buf
  read_trailer file trailer_offset file_size = do
    buf ← read_range_at file trailer_offset file_size
    lift (read_trailer_from_buf crc buf)
