-- ===== src/Recovery/Sorting.antt =====
-- `read_storage_directory` (src/recovery.rs) sorts the files by their place in the log.
use marble.Prelude.{ℕ, ◌≤◌, arith, [], ◌∷◌, All, leb, Bool-cases, leb→le, not_leb→le, inl, inr}
use mathlib.Core.List.{Perm}
use mathlib.Core.List.Perm
use marble.Prelude.Bytes.{Bytes}
use marble.Metadata.{Metadata}
use marble.Recovery.Directory.{Files, masked_lsn, insert_by_lsn, sort_by_lsn}

-- The files are in the order of the log.
abbrev pub IsSorted : Files → Type 0
IsSorted [] = Unit
IsSorted ((m, name) ∷ rest) =
    All (λ (p : Metadata × Bytes). masked_lsn m.lsn ≤ masked_lsn p.0.lsn) rest × IsSorted rest

All-insert_by_lsn :
    (bound : ℕ) (m : Metadata) (name : Bytes) (files : Files)
    → bound ≤ masked_lsn m.lsn
    → All (λ (p : Metadata × Bytes). bound ≤ masked_lsn p.0.lsn) files
    → All (λ (p : Metadata × Bytes). bound ≤ masked_lsn p.0.lsn) (insert_by_lsn m name files)
unfolding insert_by_lsn
All-insert_by_lsn bound m name [] h all = (h, tt)
All-insert_by_lsn bound m name ((n, other) ∷ rest) h all =
    ground (arith, All-insert_by_lsn bound m name rest h all.1)

All-later :
    (a b : ℕ) (files : Files)
    → a ≤ b
    → All (λ (p : Metadata × Bytes). b ≤ masked_lsn p.0.lsn) files
    → All (λ (p : Metadata × Bytes). a ≤ masked_lsn p.0.lsn) files
All-later a b [] h all = tt
All-later a b (p ∷ rest) h all = (omega (arith, all.0), All-later a b rest h all.1)

insert_by_lsn-IsSorted :
    (m : Metadata) (name : Bytes) (files : Files)
    → IsSorted files
    → IsSorted (insert_by_lsn m name files)
unfolding insert_by_lsn
insert_by_lsn-IsSorted m name [] h = (tt, tt)
insert_by_lsn-IsSorted m name ((n, other) ∷ rest) h =
    elim (Bool-cases (leb (masked_lsn m.lsn) (masked_lsn n.lsn))) [
      | inl e ↦
          let le = leb→le (masked_lsn m.lsn) (masked_lsn n.lsn) e in
          rw e ((le, All-later (masked_lsn m.lsn) (masked_lsn n.lsn) rest le h.0), h)
      | inr e ↦ rw e (
        All-insert_by_lsn (masked_lsn n.lsn) m name rest
            (not_leb→le (masked_lsn m.lsn) (masked_lsn n.lsn) e) h.0,
        insert_by_lsn-IsSorted m name rest h.1,
      )
    ]

insert_by_lsn-Perm :
    (m : Metadata) (name : Bytes) (files : Files)
    → Perm (insert_by_lsn m name files) ((m, name) ∷ files)
unfolding insert_by_lsn
insert_by_lsn-Perm m name [] = Perm.refl _
insert_by_lsn-Perm m name ((n, other) ∷ rest) =
    elim (Bool-cases (leb (masked_lsn m.lsn) (masked_lsn n.lsn))) [
      | inl e ↦ rw e (Perm.refl ((m, name) ∷ (n, other) ∷ rest))
      | inr e ↦ rw e (
          Perm.trans (Perm.cons (n, other) (insert_by_lsn-Perm m name rest))
            (Perm.swap (m, name) (n, other) rest))
    ]

pub sort_by_lsn-IsSorted : (files : Files) → IsSorted (sort_by_lsn files)
unfolding sort_by_lsn
sort_by_lsn-IsSorted [] = tt
sort_by_lsn-IsSorted ((m, name) ∷ rest) =
    insert_by_lsn-IsSorted m name (sort_by_lsn rest) (sort_by_lsn-IsSorted rest)

pub sort_by_lsn-Perm : (files : Files) → Perm (sort_by_lsn files) files
unfolding sort_by_lsn
sort_by_lsn-Perm [] = Perm.refl []
sort_by_lsn-Perm ((m, name) ∷ rest) =
    Perm.trans (insert_by_lsn-Perm m name (sort_by_lsn rest))
      (Perm.cons (m, name) (sort_by_lsn-Perm rest))
