-- ===== src/Store/Durable/Crash.antt =====
-- A crash while batches are written leaves temporary files (src/writepath.rs). `Config::open`
-- (src/recovery.rs) removes them and gives the store back.
use marble.Prelude.{
  ℕ, ◌+◌, ◌^◌, ◌≤◌, ◌<◌, ◌≡◌, refl, ap, ◌∙◌, arith, true, List, [], ◌∷◌, ◌++◌, All, Option, ok,
  some,
}
use marble.Prelude.Bytes.{Bytes}
use marble.Config.{Config, validate}
use marble.Disk
use marble.Disk.{Disk}
use marble.Disk.Calm.{IsCalm, sync_calm, file_len_calm, same_name_refl, remove_file_found}
use marble.FileMap.Homes.{Fams}
use marble.Recovery.Directory.{Files, ends_with_tmp, read_entries, read_storage_directory}
use marble.Recovery.Open.{fresh, open_config}
use marble.Recovery.Scan.{with_names}
use marble.Recovery.Utf8.{is_utf8}
use marble.Store.{Objects, Shows, absent, deleted, stored, IsStore}
use marble.Store.Durable.{LogFile, IsDurable}
use marble.Store.Durable.Restart.{open_config-IsStore}
use marble.Store.Durable.Write.{IsLog-kept}
use marble.World.{Crates, World}

abbrev pub AreTemporary : List (Bytes × ℕ) → Type 0
AreTemporary = All λ (p : Bytes × ℕ). (is_utf8 p.0 ≡ true) × (ends_with_tmp p.0 ≡ true)

find_head :
    (name : Bytes) (i : ℕ) (rest : List (Bytes × ℕ))
    → Disk.find_name name ((name, i) ∷ rest) ≡ some i
unfolding Disk.find_name
find_head name i rest = rw (same_name_refl name) refl

unlink_head :
    (name : Bytes) (i : ℕ) (rest : List (Bytes × ℕ)) → Disk.unlink name ((name, i) ∷ rest) ≡ rest
unfolding Disk.unlink
unlink_head name i rest = rw (same_name_refl name) refl

remove_head :
    (name : Bytes) (i : ℕ) (rest : List (Bytes × ℕ)) (d : Disk)
    → IsCalm d
    → d.names ≡ (name, i) ∷ rest
    → Disk.remove_file name d ≡ (ok tt, record d { names = rest })
remove_head name i rest d calm at =
    remove_file_found name i d calm (ap (Disk.find_name name) at ∙ find_head name i rest)
    ∙ ap (λ names. (ok tt, record d { names = names }))
        (ap (Disk.unlink name) at ∙ unlink_head name i rest)

module _ {T M : Type 0} where
  -- The scan takes the temporary files away one by one.
  read_entries-temporary :
      (temps rest : List (Bytes × ℕ)) (files : Files) (w : World T M)
      → IsCalm w.disk
      → AreTemporary temps
      → w.disk.names ≡ temps ++ rest
      → read_entries (temps ++ rest) files w ≡ read_entries rest files (with_names rest w)
  unfolding read_entries
  read_entries-temporary [] rest files w calm temporary at =
      ap (λ names. read_entries rest files (with_names names w)) at
  read_entries-temporary ((name, i) ∷ temps) rest files w calm ((utf8, tmp), temporary) at =
      rw
        (
          read_entries,
          sync_calm w.disk calm,
          file_len_calm i w.disk calm,
          utf8,
          tmp,
          remove_head name i (temps ++ rest) w.disk calm at,
        )
        (read_entries-temporary temps rest files (with_names (temps ++ rest) w) calm temporary refl)

  pub read_storage_directory-temporary :
      (temps rest : List (Bytes × ℕ)) (w : World T M)
      → IsCalm w.disk
      → AreTemporary temps
      → w.disk.names ≡ temps ++ rest
      → read_storage_directory w ≡ read_storage_directory (with_names rest w)
  unfolding read_storage_directory
  read_storage_directory-temporary temps rest w calm temporary at =
      rw
        (
          sync_calm w.disk calm,
          ap (λ names. read_entries names [] w) at
              ∙ read_entries-temporary temps rest [] w calm temporary at,
          sync_calm (record w.disk { names = rest }) calm,
        )
        refl

module _ {T M : Type 0} (crates : Crates T M) where
  open crates use {pages, maps, crc, zstd}

  -- A disk on which the files that were there have kept their bytes.
  pub record IsKept (d d' : Disk) : Type 0 where
    pub calm : IsCalm d'
    pub contents : (i : ℕ) → i < d.next_inode → d'.contents i ≡ d.contents i
    pub inodes : d.next_inode ≤ d'.next_inode

  Shows-kept :
      (contents contents' : ℕ → Bytes) (es : Fams) (limit limit' id word : ℕ)
      (object : Option Bytes)
      → limit ≤ limit'
      → ((i : ℕ) → i < limit → contents' i ≡ contents i)
      → Shows crates contents es limit id word object
      → Shows crates contents' es limit' id word object
  Shows-kept contents contents' es limit limit' id word object grows same (absent zero_word gone) =
      absent zero_word gone
  Shows-kept contents contents' es limit limit' id word object grows same
        (deleted lsn at here gone) =
      deleted lsn at here gone
  Shows-kept contents contents' es limit limit' id word object grows same
        (stored file base location dict front output raw back core here below based at holds fits
          dec there) =
      stored file base location dict front output raw back core here (omega (arith, below, grows))
        based at (same file below ∙ holds) fits dec there

  module _ (objects : Objects) (most : ℕ) (fs : List LogFile) (w : World T M) (d : Disk)
      (s : IsStore crates objects w) (durable : IsDurable crates most fs w)
      (kept : IsKept w.disk d) where
    -- The state with that disk, where its directory is as it was.
    abbrev on_kept : World T M
    on_kept = record w { disk = record d { names = w.disk.names } }

    on_kept-IsStore : IsStore crates objects on_kept
    on_kept-IsStore = record {
      calm = kept.calm;
      descending = s.descending;
      below = s.below;
      counted = s.counted;
      small = s.small;
      ids = s.ids;
      words = s.words;
      shows = λ k.
          Shows-kept w.disk.contents d.contents (maps.entries w.fams) w.disk.next_inode d.next_inode
            k (pages.get w.location_table k) (objects k) kept.inodes kept.contents (s.shows k);
      names = s.names;
    }

    on_kept-IsDurable : IsDurable crates most fs on_kept
    on_kept-IsDurable = record {
      log =
          IsLog-kept crc w.disk.contents d.contents w.disk.next_inode d.next_inode most
            w.next_file_lsn fs kept.inodes kept.contents durable.log;
      names = durable.names;
      keys = durable.keys;
      cores = durable.cores;
      words = durable.words;
    }

    -- A crash while files are written, before they have their names. On a disk that has the files of
    -- the log with the bytes that they had, and in front of their names any temporary ones in UTF-8, `open`
    -- returns, where no call of the system fails, the configuration is valid, and the log and its files
    -- are shorter than 2 ^ 62. It removes the temporary names. The new state holds the map that the
    -- store held and agrees with the same files; the new log ends by at most the length of a file and 1
    -- later. The counter of temporary names, which a new process starts at 0, is left as it is.
    pub open_config-crash :
        (config : Config) (temps : List (Bytes × ℕ)) (tmp_counter : ℕ)
        → validate config ≡ ok tt
        → most < 2 ^ 62
        → w.next_file_lsn < 2 ^ 62
        → AreTemporary temps
        → d.names ≡ temps ++ w.disk.names
        → (w' : World T M) × (open_config crates config
              (record w { disk = d; tmp_counter = tmp_counter })
            ≡ (ok tt, w'))
          × IsStore crates objects w'
          × IsDurable crates most fs w'
          × (w'.next_file_lsn ≤ w.next_file_lsn + most + 1)
          × (w'.tmp_counter ≡ tmp_counter)
    unfolding open_config
    open_config-crash config temps tmp_counter valid room in_log temporary at =
        let (w', e, s', durable', next, counter) =
          open_config-IsStore crates config objects most fs on_kept on_kept-IsStore
            on_kept-IsDurable tmp_counter valid room in_log in
        let scans =
          read_storage_directory-temporary temps w.disk.names (fresh crates tmp_counter d) kept.calm
            temporary at in
        (w', rw (valid, scans) refl ∙ e, s', durable', next, counter)
