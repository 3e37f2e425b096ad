-- ===== src/Prelude/Assoc.antt =====
-- `HashMap<u64, V>` as an association list: a new key goes to the end, a known key keeps its place.
-- The list's order stands for the map's order of iteration, which the program leaves open.
use Prim.Native.Nat.{ℕ}
use mathlib.Core.Path.{◌≡◌, refl, sym}
use mathlib.Core.Logic.{◌≢◌}
use mathlib.Core.Option.{Option, none, some}
use mathlib.Core.List.{List, [], ◌∷◌, ◌++◌}
use native.Mathlib.Omega.{arith}
use marble.Prelude.Tests.{◌==◌, if◌then◌else◌}
use marble.Prelude.Lists.{All}

abbrev pub Assoc {ℓ} : Type ℓ → Type ℓ
Assoc V = List (ℕ × V)

module _ {ℓ} {V : Type ℓ} where
  -- `map.get(&k)`
  unfoldable pub lookup : ℕ → Assoc V → Option V
  lookup k [] = none
  lookup k ((j, v) ∷ m) = if j == k then some v else lookup k m

  -- `map.insert(k, v)`; the value replaced is `lookup k m`
  unfoldable pub insert : ℕ → V → Assoc V → Assoc V
  insert k v [] = (k, v) ∷ []
  insert k v ((j, w) ∷ m) = if j == k then (k, v) ∷ m else (j, w) ∷ insert k v m

  -- `map.remove(&k)`
  unfoldable pub remove : ℕ → Assoc V → Assoc V
  remove k [] = []
  remove k ((j, w) ∷ m) = if j == k then m else (j, w) ∷ remove k m

  pub lookup-insert :
      (key other : ℕ) (new : V) (map : Assoc V)
      → lookup other (insert key new map) ≡ (if key == other then some new else lookup other map)
  unfolding insert lookup
  lookup-insert key other new [] = refl
  lookup-insert key other new ((k, old) ∷ map) = ground (lookup-insert key other new map, arith)

  -- No key of the map is `k`.
  abbrev pub Fresh : ℕ → Assoc V → Type 0
  Fresh k m = All (λ (p : ℕ × V). p.0 ≢ k) m

  abbrev pub Distinct : Assoc V → Type 0
  Distinct [] = Unit
  Distinct (p ∷ m) = Fresh p.0 m × Distinct m

module _ {ℓ} {V : Type ℓ} where
  pub Fresh-insert : (i k : ℕ) (v : V) (m : Assoc V) → k ≢ i → Fresh i m → Fresh i (insert k v m)
  unfolding insert
  Fresh-insert i k v [] h f = (h, tt)
  Fresh-insert i k v ((j, w) ∷ m) h f = ground (arith, Fresh-insert i k v m h f.1)

  pub Distinct-insert : (k : ℕ) (v : V) (m : Assoc V) → Distinct m → Distinct (insert k v m)
  unfolding insert
  Distinct-insert k v [] d = (tt, tt)
  Distinct-insert k v ((j, w) ∷ m) d =
      ground (arith, Distinct-insert k v m d.1, Fresh-insert j k v m)

  pub lookup-Fresh : (k : ℕ) (m : Assoc V) → Fresh k m → lookup k m ≡ none
  unfolding lookup
  lookup-Fresh k [] f = refl
  lookup-Fresh k ((j, w) ∷ m) f = ground (arith, lookup-Fresh k m f.1)

  -- A new key goes to the end.
  pub insert-Fresh : (k : ℕ) (v : V) (m : Assoc V) → Fresh k m → insert k v m ≡ m ++ ((k, v) ∷ [])
  unfolding insert
  insert-Fresh k v [] f = refl
  insert-Fresh k v ((j, w) ∷ m) f = ground (arith, f.0, insert-Fresh k v m f.1)

  -- No key of the second map is in the first.
  abbrev pub Disjoint {κ} : {U : Type κ} → Assoc V → Assoc U → Type 0
  Disjoint m [] = Unit
  Disjoint m (p ∷ n) = Fresh p.0 m × Disjoint m n

module _ {ℓ} {V : Type ℓ} where
  Fresh-snoc : (k j : ℕ) (v : V) (m : Assoc V) → Fresh k m → j ≢ k → Fresh k (m ++ ((j, v) ∷ []))
  Fresh-snoc k j v [] f h = (h, tt)
  Fresh-snoc k j v (p ∷ m) f h = (f.0, Fresh-snoc k j v m f.1 h)

  pub Disjoint-snoc {κ} :
      {U : Type κ} (k : ℕ) (v : V) (m : Assoc V) (n : Assoc U)
      → Disjoint m n
      → Fresh k n
      → Disjoint (m ++ ((k, v) ∷ [])) n
  Disjoint-snoc k v m [] d f = tt
  Disjoint-snoc k v m (p ∷ n) d f =
      (Fresh-snoc p.0 k v m d.0 (λ e. f.0 (sym e)), Disjoint-snoc k v m n d.1 f.1)

pub Disjoint-nil {ℓ κ} : (V : Type ℓ) {U : Type κ} (n : Assoc U) → Disjoint {V = V} [] n
Disjoint-nil V [] = tt
Disjoint-nil V (p ∷ n) = (tt, Disjoint-nil V n)

module _ {ℓ} {V : Type ℓ} where
  lookup-shift :
      (k : ℕ) (v : V) (m part : Assoc V)
      → Fresh k part
      → All (λ (p : ℕ × V). lookup p.0 m ≡ some p.1) part
      → All (λ (p : ℕ × V). lookup p.0 ((k, v) ∷ m) ≡ some p.1) part
  unfolding lookup
  lookup-shift k v m [] f h = tt
  lookup-shift k v m ((j, w) ∷ part) f h =
      (ground (arith, f.0, h.0), lookup-shift k v m part f.1 h.1)

  -- Every entry of a map without repeated keys is found.
  pub lookup-entries : (m : Assoc V) → Distinct m → All (λ (p : ℕ × V). lookup p.0 m ≡ some p.1) m
  unfolding lookup
  lookup-entries [] d = tt
  lookup-entries ((k, v) ∷ m) d = (ground arith, lookup-shift k v m m d.0 (lookup-entries m d.1))
