-- ===== src/Base/Raising.antt =====
-- Functions that change a state and may raise. What was written before a raise stays written, so
-- the state comes back beside the error too.
use mathlib.Core.Path.{◌≡◌, refl, ◌∙◌}
use mathlib.Core.Bool.{Bool, true, false}
use mathlib.Core.Option.{Option, none, some}

pub data Outcome {ℓ} (E A : Type ℓ) : Type ℓ where
  ok : A → Outcome E A
  err : E → Outcome E A

abbrev pub Action {ℓ} : Type ℓ → Type ℓ → Type ℓ → Type ℓ
Action S E A = S → Outcome E A × S

module _ {ℓ} {S E A : Type ℓ} where
  abbrev pub pure : A → Action S E A
  pure a s = (ok a, s)

  abbrev pub raise : E → Action S E A
  raise e s = (err e, s)

  abbrev pub gets : (S → A) → Action S E A
  gets f s = (ok (f s), s)

  abbrev pub or_raise : Option A → E → Action S E A
  or_raise none e s = (err e, s)
  or_raise (some a) e s = (ok a, s)

  -- a computation that keeps the state
  abbrev pub lift : Outcome E A → Action S E A
  lift r s = (r, s)

module _ {ℓ} {S E A B : Type ℓ} where
  abbrev pub continue : Outcome E A → S → (A → Action S E B) → Outcome E B × S
  continue (ok a) s f = f a s
  continue (err e) s f = (err e, s)

  infixl 5 ◌>>=◌ ◌>>◌
  abbrev pub ◌>>=◌ : Action S E A → (A → Action S E B) → Action S E B
  ◌>>=◌ m f s = let (r, s') = m s in continue r s' f

  abbrev pub ◌>>◌ : Action S E A → Action S E B → Action S E B
  m >> k = m >>= λ _. k

module _ {S E : Type 0} where
  abbrev pub modify : (S → S) → Action S E Unit
  modify f s = (ok tt, f s)

  abbrev pub raise_if : Bool → E → Action S E Unit
  raise_if true e s = (err e, s)
  raise_if false e s = (ok tt, s)

module _ {ℓ} {S E A B : Type ℓ} where
  continue-ok :
      (r : Outcome E A) (s : S) (f : A → Action S E B) {b : B}
      → (continue r s f).0 ≡ ok b
      → (a : A) × (r ≡ ok a) × (continue r s f ≡ f a s)
  continue-ok (ok a) s f h = (a, refl, refl)
  continue-ok (err e) s f h = cc h

  -- A block that returns has returned from its first step, and is the rest of the block there.
  pub bind-ok :
      (m : Action S E A) (f : A → Action S E B) (s : S) {b : B}
      → ((m >>= f) s).0 ≡ ok b
      → (a : A) × ((m s).0 ≡ ok a) × ((m >>= f) s ≡ f a (m s).1)
  bind-ok m f s h = continue-ok (m s).0 (m s).1 f h

module _ {ℓ} {S E A B X : Type ℓ} (part : S → X) where
  pub keeps_continue :
      (r : Outcome E A) (s : S) (f : A → Action S E B)
      → ((a : A) (s : S) → part (f a s).1 ≡ part s)
      → part (continue r s f).1 ≡ part s
  keeps_continue (ok a) s f h = h a s
  keeps_continue (err e) s f h = refl

  -- A block keeps the part of the state that its steps keep.
  pub keeps_bind :
      (m : Action S E A) (f : A → Action S E B)
      → ((s : S) → part (m s).1 ≡ part s)
      → ((a : A) (s : S) → part (f a s).1 ≡ part s)
      → (s : S) → part ((m >>= f) s).1 ≡ part s
  keeps_bind m f h k s = keeps_continue (m s).0 (m s).1 f k ∙ h s
