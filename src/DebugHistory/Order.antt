-- ===== src/DebugHistory/Order.antt =====
-- What the check of src/debug_history.rs lets pass.
use marble.Prelude.{ℕ, ◌≡◌, refl, true, ◌∷◌, ok, panic, ==_refl, Bool-cases, Option-cases, inl, inr}
use marble.Prelude.Assoc.{Assoc, lookup, insert, lookup-insert}
use marble.DebugHistory.{Locations, DebugHistory, contains, or_empty, mark_add, mark_remove}
use marble.DiskLocation.{DiskLocation}

contains_head : (l : DiskLocation) (ls : Locations) → contains l (l ∷ ls) ≡ true
unfolding contains
contains_head l ls = rw (==_refl l.word) refl

-- The history with the removal in it.
abbrev removed : ℕ → DiskLocation → DebugHistory → DebugHistory
removed id l h = record h { removes = insert id (l ∷ or_empty (lookup id h.removes)) h.removes }

lookup_inserted :
    (id : ℕ) (l : DiskLocation) (m : Assoc Locations)
    → contains l (or_empty (lookup id (insert id (l ∷ or_empty (lookup id m)) m))) ≡ true
lookup_inserted id l m =
    rw (lookup-insert id id (l ∷ or_empty (lookup id m)) m, ==_refl id)
      (contains_head l (or_empty (lookup id m)))

-- A location that an id was removed from can neither be removed again nor added again.
pub mark_remove_final :
    (id : ℕ) (l : DiskLocation) (h h' : DebugHistory)
    → mark_remove id l h ≡ ok h'
    → (mark_remove id l h' ≡ panic) × (mark_add id l h' ≡ panic)
unfolding mark_remove mark_add
mark_remove_final id l h h' e = elim (Option-cases (lookup id h.adds)) [
  | inl a ↦ absurd (cc (rw a at e))
  | inr (added, a) ↦ elim (Bool-cases (contains l added)) [
    | inl present ↦ elim (Bool-cases (contains l (or_empty (lookup id h.removes)))) [
      | inl twice ↦ absurd (cc (rw (a, present, twice) at e))
      | inr once ↦
          let eq : removed id l h ≡ h' = cc (rw (a, present, once) at e) in
          rw⁻¹ eq (
            rw (a, present, lookup_inserted id l h.removes) refl,
            rw (lookup_inserted id l h.removes) refl,
          )
    ]
    | inr not_present ↦ absurd (cc (rw (a, not_present) at e))
  ]
]
