-- ===== src/Store/Names.antt =====
-- The temporary names to come stay free (src/writepath.rs): the name of a finished file is no temporary
-- one.
use marble.Prelude.{
  ℕ, ◌≡◌, refl, ap, ◌∙◌, true, false, none, List, [], ◌∷◌, Bool-cases, inl, inr, ◌==◌, ==_iff,
}
use marble.Prelude.Bytes.{Bytes}
use marble.Disk.{same_name, find_name, unlink}
use marble.Metadata.{Metadata, to_file_name}
use marble.Recovery.Directory.{ends_with_tmp}
use marble.Recovery.Names.{ends_with_tmp-file_names}
use marble.WritePath.Batch.{tmp_file_name}

pub same_name-eq : (xs ys : Bytes) → same_name xs ys ≡ true → xs ≡ ys
unfolding same_name
same_name-eq [] [] e = refl
same_name-eq [] (y ∷ ys) e = cc
same_name-eq (x ∷ xs) [] e = cc
same_name-eq (x ∷ xs) (y ∷ ys) e = elim (Bool-cases (x == y)) [
  | inl same ↦
      ap (λ c. c ∷ xs) ((==_iff x y).0 same) ∙ ap (λ zs. y ∷ zs) (same_name-eq xs ys (rw same at e))
  | inr other ↦ cc (rw other at e)
]

pub find_name-unlink :
    (name gone : Bytes) (names : List (Bytes × ℕ))
    → find_name name names ≡ none
    → find_name name (unlink gone names) ≡ none
unfolding find_name unlink
find_name-unlink name gone [] e = refl
find_name-unlink name gone ((n, i) ∷ rest) e = elim (Bool-cases (same_name n name)) [
  | inl same ↦ cc (rw same at e)
  | inr other ↦
      let below = rw other at e in
      elim (Bool-cases (same_name n gone)) [
        | inl here ↦ rw here below
        | inr there ↦ rw (there, other) (find_name-unlink name gone rest below)
      ]
]

pub not_tmp : (n : ℕ) (m : Metadata) → same_name (to_file_name m) (tmp_file_name n) ≡ false
not_tmp n m = elim (Bool-cases (same_name (to_file_name m) (tmp_file_name n))) [
  | inl same ↦
      let eq = same_name-eq (to_file_name m) (tmp_file_name n) same in
      absurd
        ((ends_with_tmp-file_names n m).1 (ap ends_with_tmp eq ∙ (ends_with_tmp-file_names n m).0))
  | inr other ↦ other
]

-- A free temporary name stays free when a file gets its final name.
pub find_name-finished :
    (n i : ℕ) (m : Metadata) (names : List (Bytes × ℕ))
    → find_name (tmp_file_name n) names ≡ none
    → find_name (tmp_file_name n) ((to_file_name m, i) ∷ unlink (to_file_name m) names) ≡ none
unfolding find_name
find_name-finished n i m names e =
    rw (not_tmp n m) (find_name-unlink (tmp_file_name n) (to_file_name m) names e)
