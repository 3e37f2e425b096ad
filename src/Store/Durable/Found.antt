-- ===== src/Store/Durable/Found.antt =====
-- No two files of the log have one name (src/lib.rs, `Metadata::to_file_name`), so each is found
-- under its own.
use marble.Prelude.{
  ℕ, ◌+◌, ◌^◌, ◌≤◌, ◌≡◌, ◌≢◌, refl, ap, sym, ◌∙◌, arith, false, some, List, [], ◌∷◌, All,
  Bool-cases, inl, inr,
}
use marble.Prelude.Bytes.{Bytes}
use marble.Crc32.{Crc32}
use marble.Disk.{same_name, find_name, unlink}
use marble.Disk.Calm.{same_name_refl}
use marble.Metadata.{Metadata, parse, to_file_name}
use marble.Metadata.RoundTrip.{IsWide, parse-to_file_name}
use marble.Store.Durable.{LogFile, IsLog, directory}
use marble.Store.Names.{same_name-eq}

sized : Metadata → Metadata
sized m = record m { file_size = 0 }

parse-sized : (m : Metadata) → IsWide m → parse (to_file_name m) 0 ≡ some (sized m)
unfolding sized to_file_name
parse-sized m wide = parse-to_file_name (sized m) (record {
  lsn = wide.lsn;
  trailer_offset = wide.trailer_offset;
  present_objects = wide.present_objects;
  generation = wide.generation;
})

-- Files with different numbers have different names.
pub same_name-false :
    (m n : Metadata)
    → IsWide m
    → IsWide n
    → m.lsn ≢ n.lsn
    → same_name (to_file_name m) (to_file_name n) ≡ false
unfolding sized
same_name-false m n wide_m wide_n ne =
    elim (Bool-cases (same_name (to_file_name m) (to_file_name n))) [
      | inl e ↦
          let names = same_name-eq (to_file_name m) (to_file_name n) e in
          let both : some (sized m) ≡ some (sized n) =
            sym (parse-sized m wide_m) ∙ ap (λ name. parse name 0) names ∙ parse-sized n wide_n in
          absurd (ne (ap (λ x. x.lsn) (the_same both)))
      | inr e ↦ e
    ]
  where
    the_same : some (sized m) ≡ some (sized n) → sized m ≡ sized n
    the_same both = cc

-- A name that no file of the log has.
unfoldable pub IsNew : Metadata → List LogFile → Type 0
IsNew m = All λ f.
    (same_name (to_file_name m) (to_file_name f.metadata) ≡ false)
    × (same_name (to_file_name f.metadata) (to_file_name m) ≡ false)

-- Each file of the log is found under its name.
unfoldable pub AllFound : List (Bytes × ℕ) → List LogFile → Type 0
AllFound names = All λ f. find_name (to_file_name f.metadata) names ≡ some f.file

pub AllFound-later :
    (m : Metadata) (file : ℕ) (names : List (Bytes × ℕ)) (fs : List LogFile)
    → IsNew m fs
    → AllFound names fs
    → AllFound ((to_file_name m, file) ∷ names) fs
unfolding AllFound IsNew find_name
AllFound-later m file names [] new found = tt
AllFound-later m file names (f ∷ fs) new found =
    (rw new.0.0 found.0, AllFound-later m file names fs new.1 found.1)

pub unlink-IsNew :
    (m : Metadata) (fs : List LogFile)
    → IsNew m fs
    → unlink (to_file_name m) (directory fs) ≡ directory fs
unfolding IsNew unlink
unlink-IsNew m [] new = refl
unlink-IsNew m (f ∷ fs) new =
    rw new.0.1 (ap (λ names. (to_file_name f.metadata, f.file) ∷ names) (unlink-IsNew m fs new.1))

module _ (crc : Crc32) (contents : ℕ → Bytes) (limit most : ℕ) where
  -- A file that comes later than the log has a name that the log does not have.
  pub later-IsNew :
      (m : Metadata) (base next : ℕ) (fs : List LogFile)
      → IsWide m
      → m.lsn ≡ base + 2 ^ 62
      → next ≤ base
      → IsLog crc contents limit most next fs
      → IsNew m fs
  unfolding IsNew
  later-IsNew m base next [] wide at le log = tt
  later-IsNew m base next (f ∷ fs) wide at le (ends, whole, log) = (
    (
      same_name-false m f.metadata wide whole.wide (λ e. omega (arith, at, whole.lsn, ends, le, e)),
      same_name-false f.metadata m whole.wide wide (λ e. omega (arith, at, whole.lsn, ends, le, e)),
    ),
    later-IsNew m base f.base fs wide at (omega (arith, ends, le)) log,
  )

  pub directory-AllFound :
      (next : ℕ) (fs : List LogFile)
      → IsLog crc contents limit most next fs
      → AllFound (directory fs) fs
  unfolding AllFound find_name
  directory-AllFound next [] log = tt
  directory-AllFound next (f ∷ fs) (ends, whole, log) = (
    rw (same_name_refl (to_file_name f.metadata)) refl,
    AllFound-later f.metadata f.file (directory fs) fs
        (later-IsNew f.metadata f.base f.base fs whole.wide whole.lsn (omega arith) log)
        (directory-AllFound f.base fs log),
  )
