-- ===== src/Carts/Contents.antt =====
-- What a cart holds, as a function: how many of each variant a user's active cart has. This is the
-- abstract view of the tables `Cart` and `CartLine`, and how their writes change it.
use mathlib.Core.Option.{some-injective}
use visio_backend.Prelude.{
  ℕ, ◌≡◌, refl, sym, ◌∙◌, subst, true, false, not, ◌&&◌, Option, none, some, List, [], ◌∷◌, ◌==◌,
  ==→≡, ==-refl, if◌then◌else◌, arith, Bool-cases, inl, inr, first, rows, update, create, IsKeyed,
  first-test, first-key, first-update, first-create,
}
use visio_backend.Database.{Db}
use visio_backend.Database.Carts.{Cart, CartLine}
use visio_backend.Carts.Services.{cart_of, is_at, requantify}

abbrev pub quantity_of : Option CartLine → ℕ
quantity_of none = 0
quantity_of (some l) = l.quantity

-- the quantity of a variant in a cart, zero where it has no line
abbrev pub quantity_in : ℕ → ℕ → List CartLine → ℕ
quantity_in cart_id variant_id lines = quantity_of (first (is_at cart_id variant_id) lines)

abbrev pub held_by : Option Cart → ℕ → List CartLine → ℕ
held_by none variant_id lines = 0
held_by (some c) variant_id lines = quantity_in c.id variant_id lines

-- the quantity of a variant in the active cart of a user, zero where there is no cart
abbrev pub contents : Db → ℕ → ℕ → ℕ
contents db user_id variant_id = held_by (cart_of user_id db.carts) variant_id db.cart_lines

module _ (lines : List CartLine) (keyed : IsKeyed (λ l. l.id) lines) where
  -- A new quantity is that of its line's cart and variant alone.
  pub quantity_in-requantify :
      (c v q now : ℕ) (line : CartLine) (c' v' : ℕ)
      → first (is_at c v) lines ≡ some line
      → quantity_in c' v' (requantify line.id q now lines)
        ≡ (if c' == c && v' == v then q else quantity_in c' v' lines)
  quantity_in-requantify c v q now line c' v' found = elim (Bool-cases (c' == c && v' == v)) [
    | inl same ↦
        let here : first (is_at c' v') lines ≡ some line =
          subst (λ i. first (is_at i v') lines ≡ some line) (sym (==→≡ c' c (ground arith)))
            (subst (λ i. first (is_at c i) lines ≡ some line) (sym (==→≡ v' v (ground arith)))
              found) in
        rw (same, changed, here, ==-refl line.id) refl
    | inr other ↦ rw (other, changed) (elsewhere other (first (is_at c' v') lines) refl)
  ]
    where
      new_row : CartLine → CartLine
      new_row l = record l { quantity = q; updated_at = now }

      changed :
          first (is_at c' v') (update (λ l. l.id == line.id) new_row lines)
          ≡ elim (first (is_at c' v') lines) [
            | none ↦ none
            | some l ↦ some (if l.id == line.id then new_row l else l)
          ]
      changed = first-update (is_at c' v') (λ l. l.id == line.id) new_row lines (λ l. refl)

      elsewhere :
          (c' == c && v' == v) ≡ false
          → (o : Option CartLine) → first (is_at c' v') lines ≡ o
          → quantity_of
              (elim o [ none ↦ none | some l ↦ some (if l.id == line.id then new_row l else l) ])
            ≡ quantity_of o
      elsewhere other none e = refl
      elsewhere other (some l) e = elim (Bool-cases (l.id == line.id)) [
        | inl same ↦ absurd (clash other l e same)
        | inr apart ↦ rw apart refl
      ]
        where
          clash :
              (c' == c && v' == v) ≡ false
              → (l : CartLine) → first (is_at c' v') lines ≡ some l
              → (l.id == line.id) ≡ true
              → ⊥
          clash other l e same =
              let it : l ≡ line = some-injective _ _ (
                sym (first-key (λ x. x.id) (is_at c' v') lines l keyed e)
                ∙ subst (λ i. first (λ x. x.id == i) lines ≡ some line) (sym (==→≡ _ _ same))
                    (first-key (λ x. x.id) (is_at c v) lines line keyed found)) in
              let here : is_at c' v' line ≡ true =
                subst (λ x. is_at c' v' x ≡ true) it (first-test _ lines l e) in
              let there = first-test (is_at c v) lines line found in ground arith

-- A new line counts for its own cart and variant alone.
pub quantity_in-create :
    (row : CartLine) (lines : List CartLine) (c' v' : ℕ)
    → first (is_at row.cart_id row.variant_id) lines ≡ none
    → quantity_in c' v' (create row lines) ≡ (
        if c' == row.cart_id && v' == row.variant_id then row.quantity else quantity_in c' v' lines)
quantity_in-create row lines c' v' free =
    elim (Bool-cases (c' == row.cart_id && v' == row.variant_id)) [
      | inl same ↦
          let none_here : first (is_at c' v') lines ≡ none =
            subst (λ i. first (is_at i v') lines ≡ none) (sym (==→≡ c' row.cart_id (ground arith)))
              (subst (λ i. first (is_at row.cart_id i) lines ≡ none)
                (sym (==→≡ v' row.variant_id (ground arith))) free) in
          let at : is_at c' v' row ≡ true = ground arith in
          rw (same, first-create (is_at c' v') row lines, none_here, at) refl
      | inr other ↦
          let at : is_at c' v' row ≡ false = ground arith in
          rw (other, first-create (is_at c' v') row lines)
            (elsewhere at (first (is_at c' v') lines))
    ]
  where
    elsewhere :
        is_at c' v' row ≡ false
        → (o : Option CartLine)
        → quantity_of
            (elim o [ none ↦ (if is_at c' v' row then some row else none) | some l ↦ some l ])
          ≡ quantity_of o
    elsewhere at none = rw at refl
    elsewhere at (some l) = refl

-- Without the lines of a cart and variant, that cart has none of it.
pub quantity_in-remove :
    (c v : ℕ) (lines : List CartLine) (c' v' : ℕ)
    → quantity_in c' v' (rows (λ l. not (is_at c v l)) lines)
      ≡ (if c' == c && v' == v then 0 else quantity_in c' v' lines)
quantity_in-remove c v [] c' v' = ground arith
quantity_in-remove c v (l ∷ ls) c' v' = ground (arith, quantity_in-remove c v ls c' v')

pub quantity_in-clear :
    (c : ℕ) (lines : List CartLine) (c' v' : ℕ)
    → quantity_in c' v' (rows (λ l. not (l.cart_id == c)) lines)
      ≡ (if c' == c then 0 else quantity_in c' v' lines)
quantity_in-clear c [] c' v' = ground arith
quantity_in-clear c (l ∷ ls) c' v' = ground (arith, quantity_in-clear c ls c' v')
