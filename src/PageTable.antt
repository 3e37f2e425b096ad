-- ===== src/PageTable.antt =====
-- The `pagetable` crate: a wait-free map from every `u64` to an atomic word. It is not part of the
-- repository, so it is an interface: what it documents is that each key has a word of its own, 0 at
-- first.
use marble.Prelude.{ℕ, ◌≡◌, refl, ◌==◌, if◌then◌else◌}

pub record PageTable (T : Type 0) : Type 0 where
  pub empty : T
  pub get : T → ℕ → ℕ
  pub set : T → ℕ → ℕ → T
  pub get-empty : (k : ℕ) → get empty k ≡ 0
  pub get-set : (t : T) (k j w : ℕ) → get (set t k w) j ≡ (if k == j then w else get t j)

-- A table as a function, for evaluation.
abbrev pub function_pages : PageTable (ℕ → ℕ)
function_pages = record {
  empty = λ k. 0;
  get = λ t k. t k;
  set = λ t k w j. if k == j then w else t j;
  get-empty = λ k. refl;
  get-set = λ t k j w. refl;
}
