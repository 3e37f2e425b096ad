-- ===== src/Recovery/Scan.antt =====
-- What `read_storage_directory` (src/recovery.rs) finds, and what it leaves, when no call of the system
-- fails.
use marble.Prelude.{
  ℕ, ◌≡◌, refl, ap, ap₂, arith, true, false, Option, none, some, List, [], ◌∷◌, ◌++◌, All,
  append_assoc, append-nil, ok, length, Bool-cases, inl, inr, if◌then◌else◌, ◌∙◌, sym,
}
use mathlib.Core.List.{Perm}
use marble.Prelude.Bytes.{Bytes}
use marble.Disk
use marble.Disk.{Disk}
use marble.Disk.Calm.{IsCalm, sync_calm, call_calm}
use marble.Metadata.{Metadata, parse}
use marble.Recovery.Directory.{
  Files, ends_with_tmp, sort_by_lsn, keep, read_entries, read_storage_directory,
}
use marble.Recovery.Sorting.{IsSorted, sort_by_lsn-IsSorted, sort_by_lsn-Perm}
use marble.Recovery.Utf8.{is_utf8}
use marble.World.{World}

abbrev pub Names : Type 0
Names = List (Bytes × ℕ)

-- The files whose names are not temporary and do parse.
abbrev pub scan : (ℕ → Bytes) → Names → Files
scan contents [] = []
scan contents ((name, inode) ∷ rest) =
    if ends_with_tmp name
    then scan contents rest
    else keep (parse name (length (contents inode))) name [] ++ scan contents rest

-- The directory without its temporary files.
abbrev pub finished : Names → Names
finished [] = []
finished ((name, inode) ∷ rest) =
    if ends_with_tmp name then finished rest else (name, inode) ∷ finished rest

abbrev pub Absent : Bytes → Names → Type 0
Absent name = All λ (q : Bytes × ℕ). Disk.same_name q.0 name ≡ false

abbrev pub AreUtf8 : Names → Type 0
AreUtf8 = All λ (p : Bytes × ℕ). is_utf8 p.0 ≡ true

-- No name of the second list is in the first, nor twice in the second.
abbrev pub AllNew : Names → Names → Type 0
AllNew before [] = Unit
AllNew before (p ∷ rest) = Absent p.0 before × AllNew (before ++ (p ∷ [])) rest

Absent-middle :
    (name : Bytes) (p : Bytes × ℕ) (front back : Names)
    → Absent name (front ++ (p ∷ back))
    → Absent name (front ++ back)
Absent-middle name p [] back h = h.1
Absent-middle name p (q ∷ front) back h = (h.0, Absent-middle name p front back h.1)

AllNew-middle :
    (p : Bytes × ℕ) (front back rest : Names)
    → AllNew (front ++ (p ∷ back)) rest
    → AllNew (front ++ back) rest
AllNew-middle p front back [] h = tt
AllNew-middle p front back (q ∷ rest) h = (
  Absent-middle q.0 p front back h.0,
  rw (append_assoc front back (q ∷ [])) (
      AllNew-middle p front (back ++ (q ∷ [])) rest
        (rw (← append_assoc front (p ∷ back) (q ∷ [])) h.1)),
)

same_name_refl : (name : Bytes) → Disk.same_name name name ≡ true
unfolding Disk.same_name
same_name_refl [] = refl
same_name_refl (c ∷ cs) = ground (arith, same_name_refl cs)

find_here :
    (name : Bytes) (inode : ℕ) (before rest : Names)
    → Absent name before
    → Disk.find_name name (before ++ ((name, inode) ∷ rest)) ≡ some inode
unfolding Disk.find_name
find_here name inode [] rest h = rw (same_name_refl name) refl
find_here name inode ((n, i) ∷ before) rest h = rw h.0 (find_here name inode before rest h.1)

unlink_here :
    (name : Bytes) (inode : ℕ) (before rest : Names)
    → Absent name before
    → Disk.unlink name (before ++ ((name, inode) ∷ rest)) ≡ before ++ rest
unfolding Disk.unlink
unlink_here name inode [] rest h = rw (same_name_refl name) refl
unlink_here name inode ((n, i) ∷ before) rest h =
    rw h.0 (ap (λ r. (n, i) ∷ r) (unlink_here name inode before rest h.1))

remove_found :
    (name : Bytes) (inode : ℕ) (d : Disk)
    → IsCalm d
    → Disk.find_name name d.names ≡ some inode
    → Disk.remove_file name d ≡ (ok tt, record d { names = Disk.unlink name d.names })
unfolding Disk.remove_file
remove_found name inode d calm found = call_calm _ d calm ∙ rw found refl

remove_here :
    (name : Bytes) (inode : ℕ) (before rest : Names) (d : Disk)
    → IsCalm d
    → d.names ≡ before ++ ((name, inode) ∷ rest)
    → Absent name before
    → Disk.remove_file name d ≡ (ok tt, record d { names = before ++ rest })
remove_here name inode before rest d calm at absent =
    remove_found name inode d calm (rw at (find_here name inode before rest absent))
    ∙ ap (λ n. (ok tt, record d { names = n }))
        (ap (Disk.unlink name) at ∙ unlink_here name inode before rest absent)

file_len_calm : (i : ℕ) (d : Disk) → IsCalm d → Disk.file_len i d ≡ (ok (length (d.contents i)), d)
unfolding Disk.file_len
file_len_calm i d calm = call_calm _ d calm

keep-append :
    (o : Option Metadata) (name : Bytes) (files rest : Files)
    → keep o name files ++ rest ≡ files ++ (keep o name [] ++ rest)
keep-append none name files rest = refl
keep-append (some m) name files rest = append_assoc files ((m, name) ∷ []) rest

module _ {T M : Type 0} where
  abbrev pub with_names : Names → World T M → World T M
  with_names names w = record w { disk = record w.disk { names = names } }

  read_entries_lem :
      (before rest : Names) (files : Files) (w : World T M)
      → IsCalm w.disk
      → w.disk.names ≡ before ++ rest
      → AllNew before rest
      → AreUtf8 rest
      → read_entries rest files w
        ≡ (ok (files ++ scan w.disk.contents rest), with_names (before ++ finished rest) w)
  unfolding read_entries
  read_entries_lem before [] files w calm at new utf8 =
      ap₂ (λ f n. (ok f, with_names n w)) (sym (append-nil files)) at
  read_entries_lem before ((name, inode) ∷ rest) files w calm at new utf8 =
      elim (Bool-cases (ends_with_tmp name)) [
        | inl e ↦
            rw
              (
                read_entries,
                sync_calm w.disk calm,
                file_len_calm inode w.disk calm,
                utf8.0,
                e,
                remove_here name inode before rest w.disk calm at new.0,
              )
              (read_entries_lem before rest files (with_names (before ++ rest) w) calm refl
                (rw⁻¹ (append-nil before) (AllNew-middle (name, inode) before [] rest new.1))
                utf8.1)
        | inr e ↦
            rw (read_entries, sync_calm w.disk calm, file_len_calm inode w.disk calm, utf8.0, e)
              (read_entries_lem (before ++ ((name, inode) ∷ [])) rest
                  (keep (parse name (length (w.disk.contents inode))) name files) w calm
                  (at ∙ sym (append_assoc before ((name, inode) ∷ []) rest)) new.1 utf8.1
                ∙ ap₂ (λ f n. (ok f, with_names n w))
                    (keep-append _ name files (scan w.disk.contents rest))
                    (append_assoc before ((name, inode) ∷ []) (finished rest)))
      ]

module _ {T M : Type 0} where
  -- Where no call of the system fails, no two files have one name and every name is UTF-8, the scan
  -- of the directory returns the files whose names are not temporary and parse as metadata, each
  -- once and in the order of the log. It removes the temporary files and no other, and changes
  -- nothing else.
  pub read_storage_directory_lem :
      (w : World T M)
      → IsCalm w.disk
      → AllNew [] w.disk.names
      → AreUtf8 w.disk.names
      → (files : Files) × (read_storage_directory w
          ≡ (ok files, with_names (finished w.disk.names) w))
        × IsSorted files
        × Perm files (scan w.disk.contents w.disk.names)
  unfolding read_storage_directory
  read_storage_directory_lem w calm new utf8 = (
    sort_by_lsn (scan w.disk.contents w.disk.names),
    rw (sync_calm w.disk calm, read_entries_lem [] w.disk.names [] w calm refl new utf8) refl,
    sort_by_lsn-IsSorted _,
    sort_by_lsn-Perm _,
  )
