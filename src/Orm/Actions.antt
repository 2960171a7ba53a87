-- ===== src/Orm/Actions.antt =====
-- Handlers: what was written before a throw stays written (but in a transaction).
use mentos_backend.Common.{◌≡◌, refl, ap, Bool, true, false, Option, none, some, ◌⊎◌, inl, inr}
use mentos_backend.Model.{World, Exception}

pub data Result {ℓ} (A : Type ℓ) : Type ℓ where
  ok : A → Result A
  err : Exception → Result A

abbrev pub Exec : Type 0 → Type 0
Exec A = World → Result A × World

module _ {A : Type 0} where
  abbrev pub pure : A → Exec A
  pure a w = (ok a, w)

  abbrev pub throw : Exception → Exec A
  throw e w = (err e, w)

  abbrev pub gets : (World → A) → Exec A
  gets f w = (ok (f w), w)

  -- what is null throws
  abbrev pub or_throw : Exception → Option A → Exec A
  or_throw e none = throw e
  or_throw e (some a) = pure a

abbrev pub modify : (World → World) → Exec Unit
modify f w = (ok tt, f w)

abbrev pub throw_if : Bool → Exception → Exec Unit
throw_if true e = throw e
throw_if false e = pure tt

infixl 5 ◌>>=◌ ◌>>◌
abbrev pub ◌>>=◌ : {A B : Type 0} → Exec A → (A → Exec B) → Exec B
◌>>=◌ m f w = let (r, w') = m w in elim r [ ok a ↦ f a w' | err e ↦ (err e, w') ]

abbrev pub ◌>>◌ : {A B : Type 0} → Exec A → Exec B → Exec B
m >> k = m >>= λ _. k

-- what follows the run of an action
abbrev pub continue : {A B : Type 0} → (A → Exec B) → Result A × World → Result B × World
continue f run = let (r, w) = run in elim r [ ok a ↦ f a w | err e ↦ (err e, w) ]

-- What follows an action that returns.
pub >>=_ok :
    {A B : Type 0} (m : Exec A) (f : A → Exec B) (a : A) (w w' : World)
    → m w ≡ (ok a, w')
    → (m >>= f) w ≡ f a w'
>>=_ok m f a w w' h = ap (continue f) h

-- To split on the outcome of an action.
pub Outcome-cases :
    {A : Type 0} (r : Result A × World)
    → ((a : A) × (w : World) × (r ≡ (ok a, w))) ⊎ ((e : Exception) × (w : World) × (r ≡ (err e, w)))
Outcome-cases (ok a, w) = inl (a, w, refl)
Outcome-cases (err e, w) = inr (e, w, refl)
