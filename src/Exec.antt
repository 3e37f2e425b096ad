-- ===== src/Exec.antt =====
-- Methods that change a state and may return an error or panic. What was done before an error stays
-- done, so the state comes back beside every outcome.
use marble.Prelude.{Outcome, ok, err, panic, ◌≡◌, refl}

abbrev pub Exec : Type 0 → Type 0 → Type 0
Exec S A = S → Outcome A × S

module _ {S A : Type 0} where
  abbrev pub pure : A → Exec S A
  pure a s = (ok a, s)

  -- A part that touches no state.
  abbrev pub lift : Outcome A → Exec S A
  lift r s = (r, s)

  abbrev pub gets : (S → A) → Exec S A
  gets f s = (ok (f s), s)

  -- A call whose error is handled, and not returned.
  abbrev pub attempt : Exec S A → Exec S (Outcome A)
  attempt m s = let (r, s') = m s in (ok r, s')

abbrev pub modify : {S : Type 0} → (S → S) → Exec S (Unit {0})
modify f s = (ok tt, f s)

module _ {S A B : Type 0} where
  abbrev pub continue : Outcome A → (A → Exec S B) → Exec S B
  continue (ok a) f s = f a s
  continue (err e) f s = (err e, s)
  continue panic f s = (panic, s)

  infixl 5 ◌>>=◌
  abbrev pub ◌>>=◌ : Exec S A → (A → Exec S B) → Exec S B
  ◌>>=◌ m f s = let (r, s') = m s in continue r f s'

module _ {S B : Type 0} where
  infixl 5 ◌>>◌
  abbrev pub ◌>>◌ : Exec S (Unit {0}) → Exec S B → Exec S B
  m >> k = m >>= λ _. k

module _ {S A B C : Type 0} (f : A → Exec S B) (k : B → Exec S C) where
  continue_assoc :
      (r : Outcome A) (s : S)
      → continue r (λ a. f a >>= k) s ≡ continue (continue r f s).0 k (continue r f s).1
  continue_assoc (ok a) s = refl
  continue_assoc (err e) s = refl
  continue_assoc panic s = refl

  pub bind_assoc : (m : Exec S A) (s : S) → (m >>= λ a. f a >>= k) s ≡ ((m >>= f) >>= k) s
  bind_assoc m s = continue_assoc (m s).0 (m s).1
