-- ===== src/Store/Empty.antt =====
-- `Config::open` (src/recovery.rs) of an empty directory gives the empty map.
use marble.Prelude.{◌≡◌, refl, arith, none, [], ok}
use marble.Config.{Config, validate}
use marble.Disk.{find_name}
use marble.Disk.Calm.{IsCalm, sync_calm}
use marble.Recovery.Directory.{read_entries, sort_by_lsn}
use marble.Recovery.Open.{fresh, open_config}
use marble.Store.{Objects, absent, IsStore}
use marble.World.{Crates, World}

abbrev pub no_objects : Objects
no_objects k = none

module _ {T M : Type 0} (crates : Crates T M) where
  open crates use {pages, maps}

  -- The state of a new store.
  abbrev pub new_store : World T M → World T M
  new_store w = record (fresh crates w.tmp_counter w.disk) { next_file_lsn = 1 }

  pub open_config-empty :
      (config : Config) (w : World T M)
      → validate config ≡ ok tt
      → IsCalm w.disk
      → w.disk.names ≡ []
      → open_config crates config w ≡ (ok tt, new_store w)
  unfolding open_config read_entries sort_by_lsn
  open_config-empty config w valid calm empty = rw (valid, sync_calm w.disk calm, empty) refl

  pub new_store-IsStore :
      (w : World T M) → IsCalm w.disk → w.disk.names ≡ [] → IsStore crates no_objects (new_store w)
  unfolding find_name
  new_store-IsStore w calm empty = record {
    calm = calm;
    descending = rw maps.entries-empty tt;
    below = rw maps.entries-empty tt;
    counted = rw maps.entries-empty tt;
    small = rw maps.entries-empty tt;
    ids = λ k large. pages.get-empty k;
    words = λ k. omega (arith, pages.get-empty k);
    shows = λ k. absent (pages.get-empty k) refl;
    names = λ n le. rw empty refl;
  }
