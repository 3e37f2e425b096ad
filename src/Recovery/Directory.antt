-- ===== src/Recovery/Directory.antt =====
-- `read_storage_directory` (src/recovery.rs): the storage files by their names, in the order of the
-- log, with the temporary files of a crash removed.
use marble.Prelude.{
  ℕ, bit_and, Bool, true, false, Option, none, some, List, [], ◌∷◌, ◌++◌, leb, if◌then◌else◌,
  assert,
}
use marble.Prelude.Bytes.{Bytes}
use marble.Disk
use marble.Exec.{Exec, ◌>>=◌, ◌>>◌, pure, lift, gets}
use marble.FileMap.{new_write_batch_mask}
use marble.Metadata.{Metadata, parse}
use marble.Recovery.Utf8.{is_utf8}
use marble.World.{World, on_disk}

-- `metadata.lsn & NEW_WRITE_BATCH_MASK`
unfoldable pub masked_lsn : ℕ → ℕ
masked_lsn lsn = bit_and lsn new_write_batch_mask

-- `name.ends_with("tmp")`
unfoldable pub ends_with_tmp : Bytes → Bool
unfolding Disk.same_name
ends_with_tmp [] = false
ends_with_tmp (c ∷ cs) =
    if Disk.same_name (c ∷ cs) (b't' ∷ b'm' ∷ b'p' ∷ []) then true else ends_with_tmp cs

-- A name in the directory, with the file's metadata.
abbrev pub Files : Type 0
Files = List (Metadata × Bytes)

-- In front of the first file that is not earlier, so that equal keys keep their order.
unfoldable pub insert_by_lsn : Metadata → Bytes → Files → Files
unfolding masked_lsn
insert_by_lsn m name [] = (m, name) ∷ []
insert_by_lsn m name ((n, other) ∷ rest) =
    if leb (masked_lsn m.lsn) (masked_lsn n.lsn)
    then (m, name) ∷ (n, other) ∷ rest
    else (n, other) ∷ insert_by_lsn m name rest

unfoldable pub sort_by_lsn : Files → Files
unfolding insert_by_lsn
sort_by_lsn [] = []
sort_by_lsn ((m, name) ∷ rest) = insert_by_lsn m name (sort_by_lsn rest)

abbrev pub keep : Option Metadata → Bytes → Files → Files
keep none name files = files
keep (some m) name files = files ++ ((m, name) ∷ [])

module _ {T M : Type 0} where
  -- The loop over the directory's entries. A name that is not UTF-8 is a panic of `expect`, and one that
  -- does not parse is passed over.
  unfoldable pub read_entries : List (Bytes × ℕ) → Files → Exec (World T M) Files
  unfolding is_utf8
  read_entries [] files = pure files
  read_entries ((name, inode) ∷ rest) files = do
    on_disk Disk.sync
    file_size ← on_disk (Disk.file_len inode)
    lift (assert (is_utf8 name))
    if ends_with_tmp name
        then on_disk (Disk.remove_file name) >> read_entries rest files
        else read_entries rest (keep (parse name file_size) name files)

  unfoldable pub read_storage_directory : Exec (World T M) Files
  read_storage_directory = do
    on_disk Disk.sync
    names ← gets λ w. w.disk.names
    files ← read_entries names []
    pure (sort_by_lsn files)
