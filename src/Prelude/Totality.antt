-- ===== src/Prelude/Totality.antt =====
-- Runs that return: the steps of a block that cannot raise where they stand, and what is known of a
-- run that returns.
use mathlib.Core.Path.{◌≡◌, refl, ap, ◌∙◌}
use mathlib.Core.Bool.{Bool, false}
use mathlib.Core.Option.{Option, some}
use visio_backend.Prelude.Exceptions.{
  Error, Result, ok, err, Action, continue, or_raise, raise_if, ◌>>=◌,
}
use visio_backend.Prelude.Outcomes.{Ends}

-- The run does not raise.
abbrev pub Returns : {S A : Type 0} → Result A × S → Type 0
Returns r = Ends (λ _ _. Unit {0}) (λ _ _. ⊥) r

-- What holds of a run if it returns holds of a run that returns.
pub Ends-Returns :
    {S A : Type 0} {Q : A → S → Type 0} {E : Error → S → Type 0} (r : Result A × S)
    → Ends Q E r
    → Returns r
    → Ends Q (λ _ _. ⊥) r
Ends-Returns (ok a, s) h sure = record { at = h.at }
Ends-Returns (err e, s) h sure = record { at = sure.at }

module _ {S A B : Type 0} {Q : B → S → Type 0} {E : Error → S → Type 0} where
  pub then_found :
      (o : Option A) (e : Error) (f : A → Action S B) (s : S) (a : A)
      → o ≡ some a
      → Ends Q E (f a s)
      → Ends Q E ((or_raise o e >>= f) s)
  unfolding ◌>>=◌
  then_found o e f s a found h = rw found h

module _ {S B : Type 0} {Q : B → S → Type 0} {E : Error → S → Type 0} where
  pub then_allowed :
      (b : Bool) (e : Error) (f : Unit {0} → Action S B) (s : S)
      → b ≡ false
      → Ends Q E (f tt s)
      → Ends Q E ((raise_if b e >>= f) s)
  unfolding ◌>>=◌
  then_allowed b e f s allowed h = rw allowed h

module _ {S A B : Type 0} {Q : B → S → Type 0} {E : Error → S → Type 0} where
  -- A step that writes nothing, with the run itself.
  pub then_run :
      (m : Action S A) (f : A → Action S B) (s : S)
      → Ends (λ _ t. (t ≡ s) × Unit {0}) (λ _ t. t ≡ s) (m s)
      → ((e : Error) → E e s)
      → ((a : A) → m s ≡ (ok a, s) → Ends Q E (f a s))
      → Ends Q E ((m >>= f) s)
  unfolding ◌>>=◌
  then_run m f s h raised k = of_run (m s) refl h
    where
      of_run :
          (r : Result A × S)
          → m s ≡ r
          → Ends (λ _ t. (t ≡ s) × Unit {0}) (λ _ t. t ≡ s) r
          → Ends Q E (continue (m s) f)
      of_run (ok a, t) e g =
          let here : m s ≡ (ok a, s) = e ∙ ap (λ u. (ok a, u)) g.at.0 in rw here (k a here)
      of_run (err x, t) e g = rw (e ∙ ap (λ u. (err x, u)) g.at) (record { at = raised x })
