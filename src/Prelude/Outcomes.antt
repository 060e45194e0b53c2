-- ===== src/Prelude/Outcomes.antt =====
-- Postconditions of operations: what holds when one returns, and when it raises, with a rule for
-- each way to write a block. The proofs about the services follow their blocks by these rules.
use mathlib.Core.Path.{◌≡◌, refl}
use mathlib.Core.Bool.{Bool, true, false}
use mathlib.Core.Option.{Option, none, some}
use mathlib.Core.List.{List, [], ◌∷◌}
use mathlib.Core.Logic.{inl, inr}
use visio_backend.Prelude.Tests.{Bool-cases}
use visio_backend.Prelude.Exceptions.{
  Error, Result, ok, err, Action, pure, raise, settle, rethrow, gets, or_raise, atomic, translate,
  branch, recover, catch, modify, raise_if, continue, ◌>>=◌, for_each,
}

abbrev pub EndsAt : {S A : Type 0} → (A → S → Type 0) → (Error → S → Type 0) → Result A × S → Type 0
EndsAt Q E (ok a, s) = Q a s
EndsAt Q E (err e, s) = E e s

-- `Q` holds of the value and the state when the run returns, `E` when it raises.
pub record Ends {S A : Type 0} (Q : A → S → Type 0) (E : Error → S → Type 0) (r : Result A × S)
    : Type 0 where
  pub at : EndsAt Q E r

module _ {S A : Type 0} {Q : A → S → Type 0} {E : Error → S → Type 0} where
  pub Ends-ok : {r : Result A × S} → Ends Q E r → (a : A) (s : S) → r ≡ (ok a, s) → Q a s
  Ends-ok h a s e = (rw e at h).at

  -- A run that returns, and how.
  pub Ends-eq : (r : Result A × S) {a : A} {s : S} → r ≡ (ok a, s) → Q a s → Ends Q E r
  Ends-eq r e h = rw e (record { at = h })

  pub Ends-pure : (a : A) (s : S) → Q a s → Ends Q E (pure a s)
  unfolding ◌>>=◌
  Ends-pure a s h = record { at = h }

  pub Ends-raise : (e : Error) (s : S) → E e s → Ends Q E (raise e s)
  unfolding ◌>>=◌
  Ends-raise e s h = record { at = h }

  pub Ends-gets : (f : S → A) (s : S) → Q (f s) s → Ends Q E (gets f s)
  unfolding ◌>>=◌
  Ends-gets f s h = record { at = h }

  pub Ends-or_raise :
      (o : Option A) (e : Error) (s : S)
      → (o ≡ none → E e s)
      → ((a : A) → o ≡ some a → Q a s)
      → Ends Q E (or_raise o e s)
  unfolding ◌>>=◌
  Ends-or_raise none e s n y = record { at = n refl }
  Ends-or_raise (some a) e s n y = record { at = y a refl }

  pub Ends-branch :
      (b : Bool) (m k : Action S A) (s : S)
      → (b ≡ true → Ends Q E (m s))
      → (b ≡ false → Ends Q E (k s))
      → Ends Q E (branch b m k s)
  unfolding ◌>>=◌
  Ends-branch true m k s y n = y refl
  Ends-branch false m k s y n = n refl

  Ends-settle : (r : Result A × S) (s : S) → Ends Q (λ e _. E e s) r → Ends Q E (settle s r)
  Ends-settle (ok a, s') s h = record { at = h.at }
  Ends-settle (err e, s') s h = record { at = h.at }

  -- A block that raises has changed nothing.
  pub Ends-atomic : (m : Action S A) (s : S) → Ends Q (λ e _. E e s) (m s) → Ends Q E (atomic m s)
  unfolding ◌>>=◌
  Ends-atomic m s h = Ends-settle (m s) s h

  Ends-rethrow :
      (f : Error → Error) (r : Result A × S) → Ends Q (λ e s. E (f e) s) r → Ends Q E (rethrow f r)
  Ends-rethrow f (ok a, s) h = record { at = h.at }
  Ends-rethrow f (err e, s) h = record { at = h.at }

  pub Ends-translate :
      (f : Error → Error) (m : Action S A) (s : S)
      → Ends Q (λ e s. E (f e) s) (m s)
      → Ends Q E (translate f m s)
  unfolding ◌>>=◌
  Ends-translate f m s h = Ends-rethrow f (m s) h

  Ends-recover :
      (F : Error → S → Type 0) (handled : Error → Bool) (k : Action S A) (r : Result A × S)
      → Ends Q F r
      → ((e : Error) (t : S) → F e t → handled e ≡ true → Ends Q E (k t))
      → ((e : Error) (t : S) → F e t → handled e ≡ false → E e t)
      → Ends Q E (recover handled k r)
  Ends-recover F handled k (ok a, t) h y n = record { at = h.at }
  Ends-recover F handled k (err e, t) h y n = elim (Bool-cases (handled e)) [
    | inl is ↦ rw is (y e t h.at is)
    | inr not_so ↦ rw not_so (record { at = n e t h.at not_so })
  ]

  pub Ends-catch :
      (F : Error → S → Type 0) (handled : Error → Bool) (m k : Action S A) (s : S)
      → Ends Q F (m s)
      → ((e : Error) (t : S) → F e t → handled e ≡ true → Ends Q E (k t))
      → ((e : Error) (t : S) → F e t → handled e ≡ false → E e t)
      → Ends Q E (catch handled m k s)
  unfolding ◌>>=◌
  Ends-catch F handled m k s h y n = Ends-recover F handled k (m s) h y n

module _ {S A B : Type 0} {Q : B → S → Type 0} {E : Error → S → Type 0} where
  Ends-continue :
      (R : A → S → Type 0) (r : Result A × S) (f : A → Action S B)
      → Ends R E r
      → ((a : A) (s : S) → R a s → Ends Q E (f a s))
      → Ends Q E (continue r f)
  Ends-continue R (ok a, s) f h k = k a s h.at
  Ends-continue R (err e, s) f h k = record { at = h.at }

  -- The rest of a block starts from what its first step has established.
  pub Ends-bind :
      (R : A → S → Type 0) (m : Action S A) (f : A → Action S B) (s : S)
      → Ends R E (m s)
      → ((a : A) (s' : S) → R a s' → Ends Q E (f a s'))
      → Ends Q E ((m >>= f) s)
  unfolding ◌>>=◌
  Ends-bind R m f s h k = Ends-continue R (m s) f h k

  -- A step that returns, and how.
  pub then_ok :
      (m : Action S A) (f : A → Action S B) (s : S) {a : A} {s' : S}
      → m s ≡ (ok a, s')
      → Ends Q E (f a s')
      → Ends Q E ((m >>= f) s)
  unfolding ◌>>=◌
  then_ok m f s e h = rw e h

  -- A step that writes nothing.
  pub then_read :
      (R : A → Type 0) (m : Action S A) (f : A → Action S B) (s : S)
      → Ends (λ a t. (t ≡ s) × R a) (λ _ t. t ≡ s) (m s)
      → ((e : Error) → E e s)
      → ((a : A) → R a → Ends Q E (f a s))
      → Ends Q E ((m >>= f) s)
  then_read R m f s h raised k =
      Ends-bind (λ a t. (t ≡ s) × R a) m f s (Ends-raised (m s) h) λ a t r. rw r.0 (k a r.1)
    where
      Ends-raised :
          (r : Result A × S)
          → Ends (λ a t. (t ≡ s) × R a) (λ _ t. t ≡ s) r
          → Ends (λ a t. (t ≡ s) × R a) E r
      Ends-raised (ok a, t) g = record { at = g.at }
      Ends-raised (err e, t) g = record { at = rw (g.at) (raised e) }

  -- The same, where its exceptions are those of the block.
  pub then_same :
      (R : A → Type 0) (m : Action S A) (f : A → Action S B) (s : S)
      → Ends (λ a t. (t ≡ s) × R a) E (m s)
      → ((a : A) → R a → Ends Q E (f a s))
      → Ends Q E ((m >>= f) s)
  then_same R m f s h k = Ends-bind _ m f s h λ a t r. rw r.0 (k a r.1)

  pub then_gets :
      (g : S → A) (f : A → Action S B) (s : S) → Ends Q E (f (g s) s) → Ends Q E ((gets g >>= f) s)
  unfolding ◌>>=◌
  then_gets g f s h = h

  pub then_or_raise :
      (o : Option A) (e : Error) (f : A → Action S B) (s : S)
      → (o ≡ none → E e s)
      → ((a : A) → o ≡ some a → Ends Q E (f a s))
      → Ends Q E ((or_raise o e >>= f) s)
  unfolding ◌>>=◌
  then_or_raise none e f s n y = record { at = n refl }
  then_or_raise (some a) e f s n y = y a refl

module _ {S B : Type 0} {Q : B → S → Type 0} {E : Error → S → Type 0} where
  pub then_modify :
      (g : S → S) (f : Unit {0} → Action S B) (s : S)
      → Ends Q E (f tt (g s))
      → Ends Q E ((modify g >>= f) s)
  unfolding ◌>>=◌
  then_modify g f s h = h

  pub then_raise_if :
      (b : Bool) (e : Error) (f : Unit {0} → Action S B) (s : S)
      → (b ≡ true → E e s)
      → (b ≡ false → Ends Q E (f tt s))
      → Ends Q E ((raise_if b e >>= f) s)
  unfolding ◌>>=◌
  then_raise_if true e f s y n = record { at = y refl }
  then_raise_if false e f s y n = n refl

module _ {S : Type 0} {Q : Unit {0} → S → Type 0} {E : Error → S → Type 0} where
  pub Ends-raise_if :
      (b : Bool) (e : Error) (s : S)
      → (b ≡ true → E e s)
      → (b ≡ false → Q tt s)
      → Ends Q E (raise_if b e s)
  unfolding ◌>>=◌
  Ends-raise_if true e s y n = record { at = y refl }
  Ends-raise_if false e s y n = record { at = n refl }

  pub Ends-modify : (g : S → S) (s : S) → Q tt (g s) → Ends Q E (modify g s)
  unfolding ◌>>=◌
  Ends-modify g s h = record { at = h }

module _ {S A : Type 0} {E : Error → S → Type 0} where
  -- A loop, by an invariant of the elements that are left and the state.
  pub Ends-for_each :
      (I : List A → S → Type 0) (body : A → Action S (Unit {0})) (xs : List A) (s : S)
      → ((x : A) (rest : List A) (s' : S) → I (x ∷ rest) s' → Ends (λ _. I rest) E (body x s'))
      → I xs s
      → Ends (λ _. I []) E (for_each xs body s)
  unfolding for_each
  Ends-for_each I body [] s step h = Ends-pure tt s h
  Ends-for_each I body (x ∷ xs) s step h =
      Ends-bind (λ _. I xs) (body x) (λ _. for_each xs body) s (step x xs s h)
        λ _ s' h'. Ends-for_each I body xs s' step h'

-- A property of the state that holds either way holds after the run.
pub Ends-state :
    {S A : Type 0} (P : S → Type 0) (r : Result A × S) → Ends (λ _. P) (λ _. P) r → P r.1
Ends-state P (ok a, s) h = h.at
Ends-state P (err e, s) h = h.at

-- Weaker postconditions.
pub Ends-mono :
    {S A : Type 0} (Q R : A → S → Type 0) (E F : Error → S → Type 0) (r : Result A × S)
    → ((a : A) (s : S) → Q a s → R a s)
    → ((e : Error) (s : S) → E e s → F e s)
    → Ends Q E r
    → Ends R F r
Ends-mono Q R E F (ok a, s) f g h = record { at = f a s h.at }
Ends-mono Q R E F (err e, s) f g h = record { at = g e s h.at }

-- Two postconditions together, and one for every value.
pub Ends-both :
    {S A : Type 0} {Q R : A → S → Type 0} (r : Result A × S)
    → Ends Q (λ _ _. Unit {0}) r
    → Ends R (λ _ _. Unit {0}) r
    → Ends (λ a s. Q a s × R a s) (λ _ _. Unit {0}) r
Ends-both (ok a, s) h k = record { at = (h.at, k.at) }
Ends-both (err e, s) h k = record { at = tt }

pub Ends-every :
    {S A X : Type 0} {Q : X → A → S → Type 0} {E : X → Error → S → Type 0} (r : Result A × S)
    → ((x : X) → Ends (Q x) (E x) r)
    → Ends (λ a s. (x : X) → Q x a s) (λ _ _. Unit {0}) r
Ends-every (ok a, s) h = record { at = λ x. (h x).at }
Ends-every (err e, s) h = record { at = tt }

-- Nothing is claimed of any run.
pub Ends-any : {S A : Type 0} (r : Result A × S) → Ends (λ _ _. Unit {0}) (λ _ _. Unit {0}) r
Ends-any (ok a, s) = record { at = tt }
Ends-any (err e, s) = record { at = tt }
