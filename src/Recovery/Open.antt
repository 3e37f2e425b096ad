-- ===== src/Recovery/Open.antt =====
-- `Config::open` (src/recovery.rs). Creating the directory and its two marker files and locking it are
-- not modelled; what is left of a former process is its disk.
use marble.Prelude.{
  ℕ, max, true, false, Option, none, some, [], ◌∷◌, Outcome, ok, other, err, panic, unwrap,
}
use marble.Prelude.Assoc.{Assoc}
use marble.Prelude.Bytes.{Bytes}
use marble.Config.{Config, validate, default}
use marble.Disk
use marble.Disk.{Disk}
use marble.DiskLocation
use marble.DiskLocation.{DiskLocation}
use marble.Exec.{Exec, ◌>>=◌, ◌>>◌, pure, lift, gets, modify, attempt}
use marble.FileReads.{read_trailer}
use marble.FileMap.{set_fam, get_fam, drop_fam, drop_fams}
use marble.LocationTable
use marble.Metadata.{Metadata}
use marble.Recovery.Directory.{Files, read_storage_directory, masked_lsn}
use marble.Recovery.Locations.{recover_locations}
use marble.Trailer.{ZstdDict}
use marble.World.{FileAndMetadata, Crates, World, add64, on_disk}

-- What the loop over the files gathers.
pub record Found : Type 0 where
  pub max_file_lsn : ℕ
  pub max_file_size : ℕ
  pub recovery_page_table : Assoc DiskLocation

module _ {T M : Type 0} (crates : Crates T M) where
  open crates use {pages, maps, crc}

  -- Nothing but the disk, and the counter of temporary names, which is a static of the process.
  abbrev pub fresh : ℕ → Disk → World T M
  fresh tmp_counter disk = record {
    location_table = pages.empty;
    max_object_id = 0;
    fams = maps.empty;
    next_file_lsn = 0;
    decompressed_bytes_read = 0;
    compressed_bytes_read = 0;
    decompressed_bytes_written = 0;
    compressed_bytes_written = 0;
    high_level_user_bytes_written = 0;
    tmp_counter = tmp_counter;
    disk = disk;
  }

  -- `options.open(entry.path())` for reading
  unfoldable pub open_entry : Bytes → Exec (World T M) ℕ
  unfolding Disk.sync Disk.find_name
  open_entry name = do
    on_disk Disk.sync
    found ← gets λ w. Disk.find_name name w.disk.names
    lift (elim found [ none ↦ err other | some inode ↦ ok inode ])

  abbrev pub recovered_fam : Metadata → Bytes → ℕ → DiskLocation → ZstdDict → FileAndMetadata
  recovered_fam metadata name file location zstd_dict = record {
    live_objects = 0;
    metadata = some metadata;
    path = some name;
    file = file;
    location = location;
    generation = metadata.generation;
    rewrite_claim = false;
    synced = true;
    zstd_dict = zstd_dict;
  }

  -- `assert!(fams.insert(..).is_none())`: the record that was there is dropped by the panic.
  unfoldable pub assert_new : Option FileAndMetadata → Exec (World T M) (Unit {0})
  unfolding drop_fam
  assert_new none = pure tt
  assert_new (some fam) = drop_fam crates fam >> lift panic

  -- One round of the loop over the files.
  unfoldable pub recover_file : Metadata → Bytes → Found → Exec (World T M) Found
  unfolding open_entry read_trailer Disk.file_len recover_locations masked_lsn DiskLocation.new_fam
      assert_new
  recover_file metadata name found = do
    file ← open_entry name
    (trailer, zstd_dict) ← read_trailer crates file metadata.trailer_offset metadata.file_size
    table ← lift (recover_locations metadata.lsn trailer found.recovery_page_table)
    file_size ← on_disk (Disk.file_len file)
    file_location ← lift (DiskLocation.new_fam metadata.lsn)
    old ← get_fam crates file_location
    modify (set_fam crates file_location (recovered_fam metadata name file file_location zstd_dict))
    assert_new old
    pure (record {
      max_file_lsn = max found.max_file_lsn (masked_lsn metadata.lsn);
      max_file_size = max found.max_file_size file_size;
      recovery_page_table = table;
    })

  unfoldable pub recover_files : Files → Found → Exec (World T M) Found
  unfolding recover_file
  recover_files [] found = pure found
  recover_files ((metadata, name) ∷ rest) found = do
    found' ← recover_file metadata name found
    recover_files rest found'

  -- The loop over the page table: it counts the live objects of each file and fills the location
  -- table.
  unfoldable pub install_recovered : Assoc DiskLocation → Exec (World T M) (Unit {0})
  unfolding LocationTable.store
  install_recovered [] = pure tt
  install_recovered ((object_id, disk_location) ∷ rest) = do
    modify λ w. record w { max_object_id = max w.max_object_id object_id }
    found ← gets λ w. maps.seek w.fams disk_location
    (location, fam) ← lift (unwrap found)
    modify (set_fam crates location (record fam { live_objects = add64 fam.live_objects 1 }))
    modify λ w. record w {
      location_table = LocationTable.store pages w.location_table object_id disk_location;
    }
    install_recovered rest

  -- An error or a panic drops the file map, and with it the files that have no live object yet.
  unfoldable pub or_drop : Outcome (Unit {0}) → Exec (World T M) (Unit {0})
  unfolding drop_fams
  or_drop (ok _) w = (ok tt, w)
  or_drop (err e) w = (err e, (drop_fams crates (maps.entries w.fams) w).1)
  or_drop panic w = (panic, (drop_fams crates (maps.entries w.fams) w).1)

  -- The loops over the files and the page table. `next_file_lsn` is the sum of the two maxima and 1.
  unfoldable pub recover : Exec (World T M) (Unit {0})
  unfolding read_storage_directory recover_files install_recovered
  recover = do
    files ← read_storage_directory
    found ←
        recover_files files
          (record { max_file_lsn = 0; max_file_size = 0; recovery_page_table = [] })
    install_recovered found.recovery_page_table
    modify λ w. record w { next_file_lsn = add64 (add64 found.max_file_lsn found.max_file_size) 1 }

  unfoldable pub open_config : Config → Exec (World T M) (Unit {0})
  unfolding validate recover or_drop
  open_config config = do
    modify λ w. fresh w.tmp_counter w.disk
    lift (validate config)
    result ← attempt recover
    or_drop result

  -- `open` of src/lib.rs: the default configuration at a path.
  unfoldable pub open_path : Bytes → Exec (World T M) (Unit {0})
  unfolding open_config
  open_path path = open_config (record default { path = path })
