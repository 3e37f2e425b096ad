-- ===== src/Disk/Calm.antt =====
-- Calls on a disk that has no fault to come.
use marble.Prelude.{
  ℕ, ◌+◌, ◌-◌, ◌<◌, ◌≡◌, ap, arith, true, false, none, other, err, some, List, [], ◌∷◌, ◌++◌, refl,
  ok, ◌==◌, ==_refl, le→leb, length, length-append, take-append_length, drop-append_length,
  append-nil, append_assoc, ◌≢◌, ◌∙◌, Bool-cases, ==_iff, inl, inr, take_all, drop_all,
}
use mathlib.Core.Path.{fun_ext}
use marble.Exec.{Exec}
use marble.Prelude.Bytes.{Bytes}
use marble.Disk.{
  Disk, update, call, overwrite, write_all_at, read_exact_at, sync, open_file, same_name, find_name,
  rename, unlink, next_call, remove_file, file_len,
}

abbrev pub IsCalm : Disk → Type 0
IsCalm d = d.faults ≡ []

pub call_calm : {A : Type 0} (f : Exec Disk A) (d : Disk) → IsCalm d → call f d ≡ f d
unfolding call
call_calm f d calm = rw calm

-- The part of a file between two others is read back.
pub read_exact_at_part :
    (i offset len : ℕ) (d : Disk) (front part back : Bytes)
    → IsCalm d
    → d.contents i ≡ front ++ (part ++ back)
    → length front ≡ offset
    → length part ≡ len
    → read_exact_at i offset len d ≡ (ok part, d)
unfolding read_exact_at
read_exact_at_part i offset len d front part back calm holds hf hp = rw (
  calm,
  holds,
  drop-append_length front (part ++ back) offset hf,
  take-append_length part back len hp,
  le→leb (offset + len) (length (front ++ (part ++ back)))
      (omega (arith, length-append {0} front (part ++ back), length-append {0} part back)),
)

overwrite_end :
    (bytes new : Bytes) (offset : ℕ)
    → length bytes ≡ offset
    → overwrite bytes offset new ≡ bytes ++ new
unfolding overwrite
overwrite_end bytes new offset h = rw (
  take_all offset bytes (omega arith),
  drop_all (offset + length new) bytes (omega arith),
  no_gap,
  append-nil,
  append-nil,
)
  where
    no_gap : offset - length bytes ≡ 0
    no_gap = omega arith

-- A disk with bytes added to the end of a file.
pub appended : Disk → ℕ → Bytes → Disk
appended d i new = record d { contents = update d.contents i (d.contents i ++ new) }

pub write_all_at_end :
    (i offset : ℕ) (new : Bytes) (d : Disk)
    → IsCalm d
    → length (d.contents i) ≡ offset
    → write_all_at i offset new d ≡ (ok tt, appended d i new)
unfolding write_all_at appended
write_all_at_end i offset new d calm h = rw (calm, overwrite_end (d.contents i) new offset h)

pub appended-IsCalm : (d : Disk) (i : ℕ) (new : Bytes) → IsCalm d → IsCalm (appended d i new)
unfolding appended
appended-IsCalm d i new calm = calm

pub contents-appended :
    (d : Disk) (i : ℕ) (new : Bytes) → (appended d i new).contents i ≡ d.contents i ++ new
unfolding appended
contents-appended d i new = rw (==_refl i)

pub contents-appended_ne :
    (d : Disk) (i j : ℕ) (new : Bytes) → i ≢ j → (appended d i new).contents j ≡ d.contents j
unfolding appended
contents-appended_ne d i j new ne = ground arith

pub length-appended :
    (d : Disk) (i : ℕ) (new : Bytes)
    → length ((appended d i new).contents i) ≡ length (d.contents i) + length new
length-appended d i new = ap length (contents-appended d i new) ∙ length-append (d.contents i) new

update-update : (f : ℕ → Bytes) (i : ℕ) (a b : Bytes) → update (update f i a) i b ≡ update f i b
update-update f i a b = fun_ext λ j. ground arith

pub appended-appended :
    (d : Disk) (i : ℕ) (a b : Bytes) → appended (appended d i a) i b ≡ appended d i (a ++ b)
unfolding appended
appended-appended d i a b =
    ap (λ c. record d { contents = c })
      (ap (λ r. update (update d.contents i (d.contents i ++ a)) i (r ++ b))
          (contents-appended d i a)
        ∙ update-update d.contents i (d.contents i ++ a) ((d.contents i ++ a) ++ b)
        ∙ ap (update d.contents i) (append_assoc (d.contents i) a b))

pub appended-nil : (d : Disk) (i : ℕ) → appended d i [] ≡ d
unfolding appended
appended-nil d i = ap (λ c. record d { contents = c }) (fun_ext λ j. same j)
  where
    same : (j : ℕ) → update d.contents i (d.contents i ++ []) j ≡ d.contents j
    same j = elim (Bool-cases (i == j)) [
      | inl e ↦ rw e (append-nil (d.contents i) ∙ ap d.contents ((==_iff i j).0 e))
      | inr e ↦ rw e
    ]

pub sync_calm : (d : Disk) → IsCalm d → sync d ≡ (ok tt, d)
unfolding sync
sync_calm d calm = rw calm

-- A disk with a new, empty file.
abbrev pub opened : Disk → Bytes → Disk
opened d name = record d {
  contents = update d.contents d.next_inode [];
  next_inode = d.next_inode + 1;
  names = (name, d.next_inode) ∷ d.names;
}

pub open_file_new :
    (name : Bytes) (d : Disk)
    → IsCalm d
    → find_name name d.names ≡ none
    → open_file name d ≡ (ok d.next_inode, opened d name)
unfolding open_file
open_file_new name d calm new = rw (calm, next_call, new) refl

pub same_name_refl : (name : Bytes) → same_name name name ≡ true
unfolding same_name
same_name_refl [] = refl
same_name_refl (x ∷ xs) = rw (==_refl x) (same_name_refl xs)

-- The file at the head of the directory gets another name.
pub rename_head :
    (old new : Bytes) (i : ℕ) (rest : List (Bytes × ℕ)) (d : Disk)
    → IsCalm d
    → d.names ≡ (old, i) ∷ rest
    → rename old new d ≡ (ok tt, record d { names = (new, i) ∷ unlink new rest })
unfolding rename find_name unlink
rename_head old new i rest d calm at =
    rw (calm, next_call, at, same_name_refl old, at, same_name_refl old) refl

pub file_len_calm : (i : ℕ) (d : Disk) → IsCalm d → file_len i d ≡ (ok (length (d.contents i)), d)
unfolding file_len
file_len_calm i d calm = rw calm refl

pub names-appended : (d : Disk) (i : ℕ) (new : Bytes) → (appended d i new).names ≡ d.names
unfolding appended
names-appended d i new = refl

pub next_inode-appended :
    (d : Disk) (i : ℕ) (new : Bytes) → (appended d i new).next_inode ≡ d.next_inode
unfolding appended
next_inode-appended d i new = refl

-- A file that was there before another was opened and filled keeps its bytes.
pub contents-filled :
    (d : Disk) (name : Bytes) (a b : Bytes) (i : ℕ)
    → i < d.next_inode
    → (appended (appended (opened d name) d.next_inode a) d.next_inode b).contents i ≡ d.contents i
contents-filled d name a b i lt =
    let ne : d.next_inode ≢ i = λ e. omega arith in
    let off : (d.next_inode == i) ≡ false = ground arith in
    contents-appended_ne (appended (opened d name) d.next_inode a) d.next_inode i b ne
    ∙ contents-appended_ne (opened d name) d.next_inode i a ne
    ∙ rw off refl

-- A call of `remove_file` fails only for a name that is not there.
pub remove_file_found :
    (name : Bytes) (i : ℕ) (d : Disk)
    → IsCalm d
    → find_name name d.names ≡ some i
    → remove_file name d ≡ (ok tt, record d { names = unlink name d.names })
unfolding remove_file
remove_file_found name i d calm found = rw (calm, next_call, found) refl

pub remove_file_missing :
    (name : Bytes) (d : Disk)
    → IsCalm d
    → find_name name d.names ≡ none
    → remove_file name d ≡ (err other, d)
unfolding remove_file
remove_file_missing name d calm missing = rw (calm, next_call, missing) refl
