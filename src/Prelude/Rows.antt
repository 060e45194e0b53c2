-- ===== src/Prelude/Rows.antt =====
-- How writing and deleting rows keeps them distinct, and what holds of all of them.
use mathlib.Core.Path.{◌≡◌, refl}
use mathlib.Core.Logic.{inl, inr}
use mathlib.Core.Bool.{Bool, false}
use mathlib.Core.Option.{none}
use mathlib.Core.List.{List, [], ◌∷◌}
use visio_backend.Prelude.Tests.{if◌then◌else◌, Bool-cases}
use visio_backend.Prelude.Tables.{first, rows, update, create, All, IsDistinct, first-create}

module _ {A : Type 0} where
  -- What no test finds is not found after a change that no test sees.
  pub first-update-none :
      (p r q : A → Bool) (g : A → A) (xs : List A)
      → ((y : A) → r (if q y then g y else y) ≡ p y)
      → first p xs ≡ none
      → first r (update q g xs) ≡ none
  first-update-none p r q g [] same h = refl
  first-update-none p r q g (x ∷ xs) same h = elim (Bool-cases (p x)) [
    | inl t ↦ absurd (cc (rw t at h))
    | inr f ↦ rw (same x, f) (first-update-none p r q g xs same (rw f at h))
  ]

  pub update-IsDistinct :
      (same : A → A → Bool) (q : A → Bool) (g : A → A) (xs : List A)
      → ((x y : A) → same (if q x then g x else x) (if q y then g y else y) ≡ same x y)
      → IsDistinct same xs
      → IsDistinct same (update q g xs)
  update-IsDistinct same q g [] kept h = tt
  update-IsDistinct same q g (x ∷ xs) kept h = (
    first-update-none (same x) (same (if q x then g x else x)) q g xs (kept x) h.0,
    update-IsDistinct same q g xs kept h.1,
  )

  -- A row that is the same as none before it.
  pub create-IsDistinct :
      (same : A → A → Bool) (row : A) (xs : List A)
      → All (λ x. same x row ≡ false) xs
      → IsDistinct same xs
      → IsDistinct same (create row xs)
  create-IsDistinct same row [] new h = (refl, tt)
  create-IsDistinct same row (x ∷ xs) (new, news) h =
      (rw (first-create (same x) row xs, h.0, new) refl, create-IsDistinct same row xs news h.1)

  -- What no test finds fails every test.
  pub first-none-All : (p : A → Bool) (xs : List A) → first p xs ≡ none → All (λ x. p x ≡ false) xs
  first-none-All p [] h = tt
  first-none-All p (x ∷ xs) h = elim (Bool-cases (p x)) [
    | inl t ↦ absurd (cc (rw t at h))
    | inr f ↦ (f, first-none-All p xs (rw f at h))
  ]

  pub All-first : (p : A → Bool) (xs : List A) → All (λ x. p x ≡ false) xs → first p xs ≡ none
  All-first p [] h = refl
  All-first p (x ∷ xs) h = rw h.0 (All-first p xs h.1)

  pub All-both :
      {P Q R : A → Type 0} (xs : List A)
      → ((x : A) → P x → Q x → R x)
      → All P xs
      → All Q xs
      → All R xs
  All-both [] f p q = tt
  All-both (x ∷ xs) f p q = (f x p.0 q.0, All-both xs f p.1 q.1)

  first-rows-none : (p q : A → Bool) (xs : List A) → first p xs ≡ none → first p (rows q xs) ≡ none
  first-rows-none p q [] h = refl
  first-rows-none p q (x ∷ xs) h = elim (Bool-cases (p x)) [
    | inl t ↦ absurd (cc (rw t at h))
    | inr f ↦
        let rest = first-rows-none p q xs (rw f at h) in
        elim (Bool-cases (q x)) [ inl t ↦ rw (t, f) rest | inr g ↦ rw g rest ]
  ]

  pub rows-IsDistinct :
      (same : A → A → Bool) (q : A → Bool) (xs : List A)
      → IsDistinct same xs
      → IsDistinct same (rows q xs)
  rows-IsDistinct same q [] h = tt
  rows-IsDistinct same q (x ∷ xs) h =
      let rest = rows-IsDistinct same q xs h.1 in
      elim (Bool-cases (q x)) [
        | inl t ↦ rw t (first-rows-none (same x) q xs h.0, rest)
        | inr f ↦ rw f rest
      ]

  pub All-rows : (P : A → Type 0) (q : A → Bool) (xs : List A) → All P xs → All P (rows q xs)
  All-rows P q [] h = tt
  All-rows P q (x ∷ xs) h =
      let rest = All-rows P q xs h.1 in
      elim (Bool-cases (q x)) [ inl t ↦ rw t (h.0, rest) | inr f ↦ rw f rest ]
