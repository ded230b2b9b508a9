-- ===== src/Base/Outcomes.antt =====
-- Chains of results without a state: `do` blocks on `Outcome`, and lists of them.
use mathlib.Core.Path.{◌≡◌, refl}
use mathlib.Core.Logic.{◌⊎◌, inl, inr}
use mathlib.Core.Option.{Option, none, some}
use mathlib.Core.List.{List, [], ◌∷◌}
use makoto_lite_llm.Base.Raising.{Outcome, ok, err}

pub Outcome-cases {ℓ} :
    {E A : Type ℓ} (r : Outcome E A) → ((e : E) × (r ≡ err e)) ⊎ ((a : A) × (r ≡ ok a))
Outcome-cases (ok a) = inr (a, refl)
Outcome-cases (err e) = inl (e, refl)

module _ {ℓ} {E A B : Type ℓ} where
  infixl 5 ◌>>=◌
  abbrev pub ◌>>=◌ : Outcome E A → (A → Outcome E B) → Outcome E B
  ok a >>= f = f a
  err e >>= f = err e

  -- A chain that returns has returned from its first step.
  pub chain-ok :
      (m : Outcome E A) (f : A → Outcome E B) {b : B}
      → (m >>= f) ≡ ok b
      → (a : A) × (m ≡ ok a) × (f a ≡ ok b)
  chain-ok (ok a) f h = (a, refl, h)
  chain-ok (err e) f h = cc h

-- a comprehension `[f(x) for x in xs]` whose body may raise
abbrev pub for_each {ℓ} : {E A B : Type ℓ} → (A → Outcome E B) → List A → Outcome E (List B)
for_each f [] = ok []
for_each f (x ∷ xs) = do y ← f x; ys ← for_each f xs; ok (y ∷ ys)

-- `d[k]` where a missing key raises
abbrev pub need {ℓ} : {E A : Type ℓ} → E → Option A → Outcome E A
need e none = err e
need e (some a) = ok a

pub ok_injective {ℓ} : {E A : Type ℓ} {a b : A} → ◌≡◌ {A = Outcome E A} (ok a) (ok b) → a ≡ b
ok_injective h = cc
