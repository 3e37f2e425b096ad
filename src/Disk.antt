-- ===== src/Disk.antt =====
-- The file system below the heap directory, as far as the program uses it.
--
-- A file is an inode, so that its bytes stay within reach of an open handle when its name changes or
-- goes. `faults` says of each coming call whether it fails; after the end of the list none does. A
-- call that fails changes nothing.
pub mod Calm
use marble.Prelude.{
  ℕ, ◌+◌, ◌-◌, Bool, true, false, ◌&&◌, Option, none, some, List, [], ◌∷◌, ◌++◌, Outcome, ok, err,
  ErrorKind, fault, other, unexpected_eof, zero, suc, ◌==◌, leb, length, take, drop, if◌then◌else◌,
}
use marble.Exec.{Exec}
use marble.Prelude.Bytes.{Bytes}

pub record Disk : Type 0 where
  pub contents : ℕ → Bytes
  pub next_inode : ℕ
  pub names : List (Bytes × ℕ)
  pub faults : List Bool

abbrev pub update : (ℕ → Bytes) → ℕ → Bytes → ℕ → Bytes
update f i bytes j = if i == j then bytes else f j

unfoldable pub same_name : Bytes → Bytes → Bool
same_name [] [] = true
same_name (x ∷ xs) (y ∷ ys) = x == y && same_name xs ys
same_name _ _ = false

unfoldable pub unlink : Bytes → List (Bytes × ℕ) → List (Bytes × ℕ)
unfolding same_name
unlink name [] = []
unlink name ((n, i) ∷ rest) = if same_name n name then rest else (n, i) ∷ unlink name rest

unfoldable pub find_name : Bytes → List (Bytes × ℕ) → Option ℕ
unfolding same_name
find_name name [] = none
find_name name ((n, i) ∷ rest) = if same_name n name then some i else find_name name rest

-- `call f` fails if the next fault says so, and runs `f` otherwise.
unfoldable pub next_call : {A : Type 0} → List Bool → Exec Disk A → Exec Disk A
next_call [] f d = f d
next_call (true ∷ rest) f d = (err fault, record d { faults = rest })
next_call (false ∷ rest) f d = f (record d { faults = rest })

unfoldable pub call : {A : Type 0} → Exec Disk A → Exec Disk A
unfolding next_call
call f d = next_call d.faults f d

-- `open` with `read`, `write` and `create`: an existing file is opened as it is.
unfoldable pub open_file : Bytes → Exec Disk ℕ
unfolding call find_name
open_file name = call λ d. elim (find_name name d.names) [
  | some i ↦ (ok i, d)
  | none ↦ (
    ok d.next_inode,
    record d {
      contents = update d.contents d.next_inode [];
      next_inode = d.next_inode + 1;
      names = (name, d.next_inode) ∷ d.names;
    },
  )
]

unfoldable pub zeros : ℕ → Bytes
zeros zero = []
zeros (suc n) = 0 ∷ zeros n

-- Bytes written at an offset. A gap behind the end is filled with zeros.
unfoldable pub overwrite : Bytes → ℕ → Bytes → Bytes
unfolding zeros
overwrite bytes offset new =
    (take offset bytes ++ zeros (offset - length bytes))
    ++ (new ++ drop (offset + length new) bytes)

-- `write_all` at the cursor `offset`, and `write_all_at`
unfoldable pub write_all_at : ℕ → ℕ → Bytes → Exec Disk (Unit {0})
unfolding call overwrite
write_all_at i offset new =
    call λ d.
      (ok tt, record d { contents = update d.contents i (overwrite (d.contents i) offset new) })

-- `read_exact_at` into a buffer of `len` bytes
unfoldable pub read_exact_at : ℕ → ℕ → ℕ → Exec Disk Bytes
unfolding call
read_exact_at i offset len = call λ d. (
  if leb (offset + len) (length (d.contents i))
      then ok (take len (drop offset (d.contents i)))
      else err unexpected_eof,
  d,
)

-- `sync_all`, `flush`, `try_clone`: calls that can fail and change nothing that is modelled
unfoldable pub sync : Exec Disk (Unit {0})
unfolding call
sync = call λ d. (ok tt, d)

unfoldable pub file_len : ℕ → Exec Disk ℕ
unfolding call
file_len i = call λ d. (ok (length (d.contents i)), d)

-- The name that a file is moved to loses the file that had it.
unfoldable pub rename : Bytes → Bytes → Exec Disk (Unit {0})
unfolding call find_name unlink
rename old new = call λ d. elim (find_name old d.names) [
  | some i ↦ (ok tt, record d { names = (new, i) ∷ unlink new (unlink old d.names) })
  | none ↦ (err other, d)
]

unfoldable pub remove_file : Bytes → Exec Disk (Unit {0})
unfolding call find_name unlink
remove_file name = call λ d. elim (find_name name d.names) [
  | some i ↦ (ok tt, record d { names = unlink name d.names })
  | none ↦ (err other, d)
]
