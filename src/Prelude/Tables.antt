-- ===== src/Prelude/Tables.antt =====
-- Tables as lists of rows, in the order of insertion, with the queries that the services make.
use Prim.Native.Nat.{ℕ, ◌+◌, ◌≤◌}
use mathlib.Core.Path.{◌≡◌, refl, subst}
use mathlib.Core.Logic.{◌≢◌, inl, inr}
use mathlib.Core.Bool.{Bool, true, false}
use mathlib.Core.Option.{Option, none, some, some-injective}
use mathlib.Core.List.{List, [], ◌∷◌, ◌++◌}
use native.Mathlib.Omega.{arith}
use visio_backend.Prelude.Tests.{◌==◌, if◌then◌else◌, Bool-cases, ==→≡, ==-refl}

module _ {A : Type 0} where
  -- `.filter(p).first()`, and `.get(p)` where `p` is unique
  abbrev pub first : (A → Bool) → List A → Option A
  first p [] = none
  first p (x ∷ xs) = if p x then some x else first p xs

  -- `.filter(p)`
  abbrev pub rows : (A → Bool) → List A → List A
  rows p [] = []
  rows p (x ∷ xs) = let rest = rows p xs in if p x then x ∷ rest else rest

  -- `.filter(p).update(...)`; `row.save()` is the case of one primary key
  abbrev pub update : (A → Bool) → (A → A) → List A → List A
  update p f [] = []
  update p f (x ∷ xs) = (if p x then f x else x) ∷ update p f xs

  -- `.filter(p).aggregate(Sum(f))`, with `or 0`
  abbrev pub aggregate : (A → Bool) → (A → ℕ) → List A → ℕ
  aggregate p f [] = 0
  aggregate p f (x ∷ xs) = (if p x then f x else 0) + aggregate p f xs

  -- `.objects.create(...)`
  abbrev pub create : A → List A → List A
  create row xs = xs ++ row ∷ []

  -- `row.save()`
  abbrev pub save : (A → ℕ) → A → List A → List A
  save key row = update (λ x. key x == key row) (λ _. row)

  -- `.order_by(...)`, for the test that `x` comes before `y`
  abbrev pub insert_by : (A → A → Bool) → A → List A → List A
  insert_by before x [] = x ∷ []
  insert_by before x (y ∷ ys) =
      let rest = y ∷ insert_by before x ys in if before x y then x ∷ y ∷ ys else rest

  abbrev pub order_by : (A → A → Bool) → List A → List A
  order_by before [] = []
  order_by before (x ∷ xs) = insert_by before x (order_by before xs)

  -- No two rows are the same by a test.
  abbrev pub IsDistinct : (A → A → Bool) → List A → Type 0
  IsDistinct same [] = Unit {0}
  IsDistinct same (x ∷ xs) = (first (same x) xs ≡ none) × IsDistinct same xs

  abbrev pub All : (A → Type 0) → List A → Type 0
  All P [] = Unit {0}
  All P (x ∷ xs) = P x × All P xs

module _ {A : Type 0} where
  pub first-test : (p : A → Bool) (xs : List A) (a : A) → first p xs ≡ some a → p a ≡ true
  first-test p [] a h = absurd (cc)
  first-test p (x ∷ xs) a h = elim (Bool-cases (p x)) [
    | inl t ↦ subst (λ y. p y ≡ true) (some-injective _ _ (rw t at h)) t
    | inr f ↦ first-test p xs a (rw f at h)
  ]

  pub first-All :
      (P : A → Type 0) (p : A → Bool) (xs : List A) (a : A) → All P xs → first p xs ≡ some a → P a
  first-All P p [] a h e = absurd (cc)
  first-All P p (x ∷ xs) a h e = elim (Bool-cases (p x)) [
    | inl t ↦ subst P (some-injective _ _ (rw t at e)) h.0
    | inr f ↦ first-All P p xs a h.1 (rw f at e)
  ]

  pub All-mono : (P Q : A → Type 0) (xs : List A) → ((x : A) → P x → Q x) → All P xs → All Q xs
  All-mono P Q [] f h = tt
  All-mono P Q (x ∷ xs) f h = (f x h.0, All-mono P Q xs f h.1)

  pub All-update :
      (P Q : A → Type 0) (p : A → Bool) (f : A → A) (xs : List A)
      → ((x : A) → P x → p x ≡ true → Q (f x))
      → ((x : A) → P x → p x ≡ false → Q x)
      → All P xs
      → All Q (update p f xs)
  All-update P Q p f [] hit miss h = tt
  All-update P Q p f (x ∷ xs) hit miss h = (
    elim (Bool-cases (p x)) [ inl t ↦ rw t (hit x h.0 t) | inr e ↦ rw e (miss x h.0 e) ],
    All-update P Q p f xs hit miss h.1,
  )

  pub All-create :
      (P : A → Type 0) (row : A) (xs : List A) → All P xs → P row → All P (create row xs)
  All-create P row [] h p = (p, tt)
  All-create P row (x ∷ xs) h p = (h.0, All-create P row xs h.1 p)

  pub aggregate-create :
      (p : A → Bool) (f : A → ℕ) (a : A) (xs : List A)
      → aggregate p f (create a xs) ≡ aggregate p f xs + (if p a then f a else 0)
  aggregate-create p f a [] = omega arith
  aggregate-create p f a (x ∷ xs) = omega (arith, aggregate-create p f a xs)

  -- A change of the rows that pass `q` leaves a total as it was if it leaves each row's part.
  pub aggregate-update :
      (p q : A → Bool) (g : A → A) (f : A → ℕ) (xs : List A)
      → ((x : A) → q x ≡ true → (if p (g x) then f (g x) else 0) ≡ (if p x then f x else 0))
      → aggregate p f (update q g xs) ≡ aggregate p f xs
  aggregate-update p q g f [] same = refl
  aggregate-update p q g f (x ∷ xs) same = elim (Bool-cases (q x)) [
    | inl t ↦ rw t (omega (arith, same x t, aggregate-update p q g f xs same))
    | inr e ↦ rw e (omega (arith, aggregate-update p q g f xs same))
  ]

  pub aggregate-update_le :
      (p q : A → Bool) (g : A → A) (f : A → ℕ) (xs : List A)
      → ((x : A) → q x ≡ true → (if p (g x) then f (g x) else 0) ≤ (if p x then f x else 0))
      → aggregate p f (update q g xs) ≤ aggregate p f xs
  aggregate-update_le p q g f [] less = omega arith
  aggregate-update_le p q g f (x ∷ xs) less = elim (Bool-cases (q x)) [
    | inl t ↦ rw t (omega (arith, less x t, aggregate-update_le p q g f xs less))
    | inr e ↦ rw e (omega (arith, aggregate-update_le p q g f xs less))
  ]

  -- Where the changed rows count for nothing, the part of one of them is gone from the total.
  pub aggregate-update_drop :
      (p q : A → Bool) (g : A → A) (f : A → ℕ) (xs : List A) (a : A)
      → ((x : A) → q x ≡ true → p (g x) ≡ false)
      → first q xs ≡ some a
      → p a ≡ true
      → aggregate p f (update q g xs) + f a ≤ aggregate p f xs
  aggregate-update_drop p q g f [] a gone e live = absurd (cc)
  aggregate-update_drop p q g f (x ∷ xs) a gone e live = elim (Bool-cases (q x)) [
    | inl t ↦
        let same : x ≡ a = some-injective _ _ (rw t at e) in
        rw (t, gone x t, same, live)
          (omega (arith, aggregate-update_le p q g f xs (λ y h. rw (gone y h) (omega arith))))
    | inr m ↦ rw m (omega (arith, aggregate-update_drop p q g f xs a gone (rw m at e) live))
  ]

  pub aggregate-weaken :
      (p q : A → Bool) (f : A → ℕ) (xs : List A)
      → ((x : A) → p x ≡ true → q x ≡ true)
      → aggregate p f xs ≤ aggregate q f xs
  aggregate-weaken p q f [] h = omega arith
  aggregate-weaken p q f (x ∷ xs) h = ground (arith, h x, aggregate-weaken p q f xs h)

  -- A change of rows that no test `p` sees changes what `p` finds in place.
  pub first-update :
      (p q : A → Bool) (g : A → A) (xs : List A)
      → ((x : A) → p (g x) ≡ p x)
      → first p (update q g xs)
        ≡ elim (first p xs) [ none ↦ none | some x ↦ some (if q x then g x else x) ]
  first-update p q g [] same = refl
  first-update p q g (x ∷ xs) same = ground (arith, same x, first-update p q g xs same)

  -- What was found before a row was created is found after.
  pub first-create :
      (p : A → Bool) (row : A) (xs : List A)
      → first p (create row xs)
        ≡ elim (first p xs) [ none ↦ (if p row then some row else none) | some x ↦ some x ]
  first-create p row [] = refl
  first-create p row (x ∷ xs) = ground (arith, first-create p row xs)

-- Rows with a primary key.
module _ {A : Type 0} (key : A → ℕ) where
  -- No key occurs twice.
  abbrev pub IsKeyed : List A → Type 0
  IsKeyed = IsDistinct (λ x y. key y == key x)

  -- A row that any query finds is the row of its key.
  pub first-key :
      (p : A → Bool) (xs : List A) (a : A)
      → IsKeyed xs
      → first p xs ≡ some a
      → first (λ y. key y == key a) xs ≡ some a
  first-key p [] a h e = absurd (cc)
  first-key p (x ∷ xs) a h e = elim (Bool-cases (p x)) [
    | inl t ↦ rw (← some-injective _ _ (rw t at e), ==-refl) refl
    | inr f ↦
        let found = first-key p xs a h.1 (rw f at e) in
        elim (Bool-cases (key x == key a)) [
          | inl same ↦ absurd (cc (rw (==→≡ _ _ same) at h.0, found))
          | inr other ↦ rw other found
        ]
  ]

  -- A saved row is what its key finds, if it was there; other keys find what they did.
  pub first-save :
      (i : ℕ) (row : A) (xs : List A)
      → first (λ y. key y == i) (save key row xs) ≡ (
          if key row == i
          then elim (first (λ y. key y == i) xs) [ none ↦ none | some _ ↦ some row ]
          else first (λ y. key y == i) xs)
  first-save i row [] = ground arith
  first-save i row (x ∷ xs) = ground (arith, first-save i row xs)

  pub save-IsKeyed : (row : A) (xs : List A) → IsKeyed xs → IsKeyed (save key row xs)
  save-IsKeyed row [] h = tt
  save-IsKeyed row (x ∷ xs) h =
      ground
        (arith, save-IsKeyed row xs h.1, first-save (key x) row xs, first-save (key row) row xs)

  pub first-save_self :
      (i : ℕ) (row : A) (xs : List A) {old : A}
      → first (λ y. key y == i) xs ≡ some old
      → key row ≡ i
      → first (λ y. key y == i) (save key row xs) ≡ some row
  first-save_self i row xs found named = rw (first-save i row xs, found, named, ==-refl) refl

  pub first-save_other :
      (i : ℕ) (row : A) (xs : List A)
      → i ≢ key row
      → first (λ y. key y == i) (save key row xs) ≡ first (λ y. key y == i) xs
  first-save_other i row xs other = ground (arith, first-save i row xs)
