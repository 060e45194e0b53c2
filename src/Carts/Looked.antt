-- ===== src/Carts/Looked.antt =====
-- The lines that the loop of `validate_and_clamp_cart` (apps/cart/services.py) looks at: all those
-- of the cart.
use visio_backend.Prelude.{
  ℕ, ◌≡◌, inl, inr, refl, subst, Bool, false, ◌||◌, none, some, List, [], ◌∷◌, ◌==◌, ==→≡, ==-refl,
  arith, Bool-cases, rows, first, All, All-mono, IsDistinct,
}
use visio_backend.Database.Carts.{CartLine}
use visio_backend.Carts.Services.{is_at}
use visio_backend.Carts.Contents.{quantity_in}
use visio_backend.Carts.Tidy.{same_place}

-- Some line of the list is of the variant.
abbrev pub has : ℕ → List CartLine → Bool
has v [] = false
has v (l ∷ ls) = l.variant_id == v || has v ls

-- Each line is the one of its variant in the cart.
abbrev pub Current : ℕ → List CartLine → CartLine → Type 0
Current cart_id lines l = first (is_at cart_id l.variant_id) lines ≡ some l

cons-Current :
    (i : ℕ) (x : CartLine) (xs : List CartLine) (l : CartLine)
    → first (same_place x) xs ≡ none
    → Current i xs l
    → Current i (x ∷ xs) l
cons-Current i x xs l h e = elim (Bool-cases (is_at i l.variant_id x)) [
  | inl same ↦
      let gone : first (is_at i l.variant_id) xs ≡ none =
        subst (λ j. first (is_at j l.variant_id) xs ≡ none) (==→≡ _ _ (ground arith))
          (subst (λ j. first (is_at x.cart_id j) xs ≡ none) (==→≡ _ _ (ground arith)) h) in
      absurd (cc)
  | inr other ↦ rw other e
]

pub rows-Current :
    (i : ℕ) (lines : List CartLine)
    → IsDistinct same_place lines
    → All (Current i lines) (rows (λ l. l.cart_id == i) lines)
rows-Current i [] h = tt
rows-Current i (x ∷ xs) h =
    let behind =
      All-mono (Current i xs) (Current i (x ∷ xs)) _ (λ l. cons-Current i x xs l h.0)
        (rows-Current i xs h.1) in
    elim (Bool-cases (x.cart_id == i)) [
      | inl t ↦ rw t (rw (t, ==-refl) refl, behind)
      | inr f ↦ rw f behind
    ]

-- A variant with no line in the cart is not in the cart.
pub has-rows :
    (i v : ℕ) (lines : List CartLine)
    → has v (rows (λ l. l.cart_id == i) lines) ≡ false
    → quantity_in i v lines ≡ 0
has-rows i v [] h = refl
has-rows i v (x ∷ xs) h = ground (arith, has-rows i v xs)
