-- ===== src/WritePath/Batch.antt =====
-- `write_batch_inner` (src/writepath.rs): one file for a batch of objects.
pub mod Begin
pub mod Finish
pub mod Installing
use marble.Prelude.{
  ℕ, zero, suc, ◌+◌, ◌*◌, ◌/◌, ◌%◌, Bool, true, false, not, Option, none, some, List, [], ◌∷◌, ◌++◌,
  length, Outcome, ErrorKind, ok, err, panic, assert, ltb, ◌==◌, if◌then◌else◌,
}
use marble.Prelude.Assoc.{Assoc}
use marble.Prelude.Bytes.{Bytes}
use marble.Prelude.Int.{ℤ, pos, negsuc, ◌+ℤ◌}
use marble.Config.{Config}
use marble.Disk
use marble.DiskLocation
use marble.DiskLocation.{DiskLocation}
use marble.Exec.{Exec, ◌>>=◌, ◌>>◌, pure, lift, gets, modify, attempt}
use marble.FileMap
use marble.Metadata.{Metadata, to_file_name}
use marble.RelativeDiskLocation.{RelativeDiskLocation}
use marble.Trailer.{ZstdDict, dict_bytes, trailer_bytes}
use marble.World.{Crates, World, add64, on_disk}
use marble.WritePath.Install.{Installed, nothing_installed, install, undo, remove_failed}
use marble.WritePath.Objects.{Written, nothing_written, write_objects}
use marble.Zstd.{Zstd, from_samples}

abbrev pub is_empty : {A : Type 0} → List A → Bool
is_empty [] = true
is_empty (x ∷ xs) = false

-- A number in decimal; 20 digits are enough for a `u64`.
unfoldable pub decimal : ℕ → ℕ → Bytes
decimal zero n = []
decimal (suc fuel) n =
    let front = decimal fuel (n / 10) in
    if ltb n 10 then (n + b'0') ∷ [] else front ++ ((n % 10 + b'0') ∷ [])

-- `format!("{}-tmp", n)`
unfoldable pub tmp_file_name : ℕ → Bytes
unfolding decimal
tmp_file_name n = decimal 20 n ++ (b'-' ∷ b't' ∷ b'm' ∷ b'p' ∷ [])

-- How a batch is compressed: the dictionary that is stored, the compressor with its level, and the
-- dictionary that reads will use.
pub record Compression : Type 0 where
  pub dict_bytes_opt : Option Bytes
  pub compressor_and_level_opt : Option (Bytes × ℤ)
  pub decompressor : ZstdDict

abbrev pub uncompressed : Compression
uncompressed = record {
  dict_bytes_opt = none;
  compressor_and_level_opt = none;
  decompressor = none;
}

abbrev pub compressed_with : ℤ → Option Bytes → Compression
compressed_with level none = uncompressed
compressed_with level (some dict) = record {
  dict_bytes_opt = some dict;
  compressor_and_level_opt = some (dict, level);
  decompressor = some dict;
}

abbrev pub map_ok : {A B : Type 0} → (A → B) → Outcome A → Outcome B
map_ok f (ok a) = ok (f a)
map_ok f (err e) = err e
map_ok f panic = panic

unfoldable pub choose_compression : Zstd → Config → Assoc (Option Bytes) → Outcome Compression
unfolding from_samples
choose_compression zstd config objects = elim config.zstd_compression_level [
  | none ↦ ok uncompressed
  | some level ↦ map_ok (compressed_with level) (from_samples zstd objects)
]

-- `u64::try_from(..).unwrap()` of an `i64`
abbrev pub to_u64 : ℤ → Outcome ℕ
to_u64 (pos n) = ok n
to_u64 (negsuc n) = panic

abbrev pub new_write_generation : ℕ
new_write_generation = 0

abbrev with_unit : {T : Type 0} → Outcome T → Outcome (T × Unit {0})
with_unit = map_ok (λ t. (t, tt))

-- What steps 5 and 6 know of the new file.
pub record NewFile : Type 0 where
  pub base_location : DiskLocation
  pub file : ℕ
  pub tmp_path : Bytes
  pub dict_bytes_opt : Option Bytes
  pub metadata : Metadata
  pub new_relative_locations : Assoc RelativeDiskLocation

module _ {T M : Type 0} (crates : Crates T M) (config : Config) where
  open crates use {pages, maps, crc, zstd}

  unfoldable pub next_tmp_name : Exec (World T M) Bytes
  unfolding tmp_file_name
  next_tmp_name = do
    n ← gets λ w. w.tmp_counter
    modify λ w. record w { tmp_counter = add64 w.tmp_counter 1 }
    pure (tmp_file_name n)

  unfoldable pub count_written : Written → Exec (World T M) (Unit {0})
  unfolding ◌+ℤ◌
  count_written written = do
    modify λ w. record w {
      compressed_bytes_written = add64 w.compressed_bytes_written written.written_bytes;
    }
    decompressed ← lift (to_u64 (pos written.written_bytes +ℤ written.compressed_bytes))
    modify λ w. record w {
      decompressed_bytes_written = add64 w.decompressed_bytes_written decompressed;
    }

  -- An operation on the location table alone.
  abbrev pub on_table : {A : Type 0} → (T → Outcome (T × A)) → Exec (World T M) A
  on_table f w = elim (f w.location_table) [
    | ok (t, a) ↦ (ok a, record w { location_table = t })
    | err e ↦ (err e, w)
    | panic ↦ (panic, w)
  ]

  -- The claims are dropped when the block that holds them is left, by whatever way.
  abbrev pub releasing : {A : Type 0} → List DiskLocation → Exec (World T M) A → Exec (World T M) A
  releasing claims m w =
      let (r, w') = m w in
      elim r [
        | ok a ↦ (FileMap.drop_claims crates claims >>= λ _. pure a) w'
        | err e ↦ (FileMap.drop_claims crates claims >>= λ _. lift (err e)) w'
        | panic ↦ (panic, w')
      ]

  -- Step 5: the trailer goes behind the objects, and the file gets its name.
  unfoldable pub write_and_rename : NewFile → Bytes → Exec (World T M) (Unit {0})
  unfolding trailer_bytes Disk.write_all_at Disk.sync Disk.rename
  write_and_rename new new_path = do
    on_disk (
        Disk.write_all_at new.file new.metadata.trailer_offset
          (trailer_bytes crc new.new_relative_locations new.dict_bytes_opt))
    on_disk Disk.sync
    on_disk Disk.sync
    on_disk (Disk.rename new.tmp_path new_path)

  -- What happens when step 5 fails.
  unfoldable pub roll_back : NewFile → Installed → ErrorKind → Exec (World T M) (Unit {0})
  unfolding undo DiskLocation.lsn FileMap.delete_partially_installed_fam
  roll_back new installed e = do
    on_table λ t. with_unit (
        undo pages (DiskLocation.lsn new.base_location) new.new_relative_locations t
          installed.replaced_locations)
    FileMap.delete_partially_installed_fam crates new.base_location new.tmp_path
    lift (err e)

  -- Step 6.
  unfoldable pub settle : NewFile → Installed → Bytes → Exec (World T M) (Unit {0})
  unfolding Disk.file_len FileMap.decrement_evacuated_fams FileMap.finalize_fam
  settle new installed new_path = do
    file_len ← on_disk (Disk.file_len new.file)
    lift (assert (file_len == new.metadata.file_size))
    FileMap.decrement_evacuated_fams crates new.base_location installed.replaced_locations
    FileMap.finalize_fam crates new.base_location new.metadata installed.subtract_from_len new_path

  unfoldable pub finish : NewFile → Installed → Exec (World T M) (Unit {0})
  unfolding to_file_name write_and_rename roll_back settle
  finish new installed = do
    let new_path = to_file_name new.metadata
    res ← attempt (write_and_rename new new_path)
    elim res [
      | ok _ ↦ settle new installed new_path
      | err e ↦ roll_back new installed e
      | panic ↦ lift panic
    ]

  -- `expected_file_len`
  abbrev pub metadata_of : Compression → Written → ℕ → ℕ → ℕ → ℕ → Metadata
  metadata_of compression written lsn items present_objects generation = record {
    lsn = lsn;
    trailer_offset = written.written_bytes;
    present_objects = present_objects;
    generation = generation;
    file_size =
        written.written_bytes
        + 4
        + 8
        + 8
        + 16 * items
        + length (dict_bytes compression.dict_bytes_opt);
  }

  -- Steps 3 to 6, while the claim on the new file is held.
  unfoldable pub install_and_finish :
      Assoc (Option Bytes)
      → ℕ
      → Assoc DiskLocation
      → Bytes
      → ℕ
      → Compression
      → Written
      → DiskLocation
      → Exec (World T M) (Unit {0})
  unfolding install remove_failed finish DiskLocation.lsn FileMap.delete_partially_installed_fam
  install_and_finish objects generation old_locations tmp_path file compression written base = do
    let lsn = DiskLocation.lsn base
    installed ←
        on_table
          λ t. install pages old_locations lsn t written.new_relative_locations nothing_installed
    locations ← lift (remove_failed installed.failed_gc_locations written.new_relative_locations)
    if is_empty locations
        then FileMap.delete_partially_installed_fam crates base tmp_path
        else finish
            (record {
              base_location = base;
              file = file;
              tmp_path = tmp_path;
              dict_bytes_opt = compression.dict_bytes_opt;
              metadata =
                  metadata_of compression written lsn (length locations) (length objects)
                    generation;
              new_relative_locations = locations;
            })
            installed

  unfoldable pub write_batch_inner :
      Assoc (Option Bytes) → ℕ → Assoc DiskLocation → Exec (World T M) (Unit {0})
  unfolding next_tmp_name count_written choose_compression write_objects install_and_finish
      Disk.open_file Disk.sync FileMap.insert
  write_batch_inner objects generation old_locations = do
    lift (assert (not (is_empty objects)))
    let is_gc = not (generation == new_write_generation)
    lift (assert (if is_gc then not (is_empty old_locations) else is_empty old_locations))
    tmp_path ← next_tmp_name
    file ← on_disk (Disk.open_file tmp_path)
    compression ← lift (choose_compression zstd config objects)
    written ←
        write_objects crates config compression.compressor_and_level_opt file objects
          nothing_written
    lift (assert (length written.new_relative_locations == length objects))
    on_disk Disk.sync
    on_disk Disk.sync
    if config.fsync_each_batch then on_disk Disk.sync else pure tt
    count_written written
    (base, claims) ←
        FileMap.insert crates config file written.written_bytes
          (length written.new_relative_locations) generation is_gc compression.decompressor
    releasing claims
        (install_and_finish objects generation old_locations tmp_path file compression written base)
