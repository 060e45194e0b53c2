-- ===== src/Carts/Relining.antt =====
-- The locked block that the operations on a cart share: read the cart, write its lines, touch it.
use visio_backend.Prelude.{
  ℕ, ◌≤◌, ◌≡◌, ◌≢◌, refl, sym, ◌∙◌, subst, true, false, ◌&&◌, ◌||◌, none, some, ◌==◌, ==→≡, ==-refl,
  if◌then◌else◌, arith, Error, ok, update, first-update, first-test, ◌>>=◌, ℤ, pos, negsuc,
  pos_part, ltb_ℤ, value_error, variant_not_purchasable, Ends, Ends-mono, Ends-pure, Ends-or_raise,
  then_gets, then_raise_if,
}
use visio_backend.Commerce.Models.{Variant}
use visio_backend.Database.{Db}
use visio_backend.Database.Carts.{Cart}
use visio_backend.Checkout.Sessions.{is_open}
use visio_backend.Carts.Services.{
  cart_max_quantity, validate_quantity, find_purchasable, is_purchasable, purchasable_variant,
  cart_of, find_cart, touched, touch_cart, locked_cart,
}
use visio_backend.Carts.Contents.{quantity_in, contents}
use visio_backend.Carts.Tidy.{IsTidy, touch-IsTidy}
use visio_backend.Carts.Effects.{
  Changed, IsTidyDb, cart_of-find, held_by-touch, lines-Changed, touch_cart-touches, Provided,
}

-- What a change of the user's cart by `g` leaves: tidy tables, contents that follow `g`, and the cart
-- that is returned as the user's active one.
pub record Refines (user_id : ℕ) (g : ℕ → ℕ → ℕ) (s : Db) (a : Cart) (t : Db) : Type 0 where
  pub tidy : IsTidyDb t
  pub changed : Changed user_id g s t
  pub active : cart_of user_id t.carts ≡ some a

-- Only the lines are written, and they change as `g` says in the cart alone.
pub record Relined (c : Cart) (g : ℕ → ℕ → ℕ) (s t : Db) : Type 0 where
  pub written : t ≡ record s { cart_lines = t.cart_lines }
  pub tidy : IsTidy s.carts t.cart_lines
  pub law :
      (i v : ℕ)
      → quantity_in i v t.cart_lines
        ≡ (if i == c.id then g v (quantity_in i v s.cart_lines) else quantity_in i v s.cart_lines)

-- `x` is the quantity, and it is from 1 to CART_MAX_QUANTITY.
pub record IsQuantity (quantity : ℤ) (x : ℕ) : Type 0 where
  pub same : quantity ≡ pos x
  pub low : 1 ≤ x
  pub high : x ≤ cart_max_quantity

-- No number from 1 to CART_MAX_QUANTITY is the quantity.
abbrev pub IsNoQuantity : ℤ → Type 0
IsNoQuantity quantity = (x : ℕ) → 1 ≤ x → x ≤ cart_max_quantity → quantity ≢ pos x

module _ {E : Error → Db → Type 0} where
  pub validate_quantity-Ends :
      (quantity : ℤ) (s : Db)
      → (IsNoQuantity quantity → E value_error s)
      → Ends (λ x t. (t ≡ s) × IsQuantity quantity x) E (validate_quantity quantity s)
  unfolding validate_quantity
  validate_quantity-Ends quantity s refused =
      then_raise_if _ _ _ s (λ bad. refused (none_fits quantity bad))
        λ good. Ends-pure _ s (refl, fits quantity good)
    where
      none_fits :
          (q : ℤ) → (ltb_ℤ q (pos 1) || ltb_ℤ (pos cart_max_quantity) q) ≡ true → IsNoQuantity q
      none_fits q bad x low high e =
          no (subst (λ z. (ltb_ℤ z (pos 1) || ltb_ℤ (pos cart_max_quantity) z) ≡ true) e bad)
        where
          no : (ltb_ℤ (pos x) (pos 1) || ltb_ℤ (pos cart_max_quantity) (pos x)) ≡ true → ⊥
          no h = ground arith

      fits :
          (q : ℤ)
          → (ltb_ℤ q (pos 1) || ltb_ℤ (pos cart_max_quantity) q) ≡ false
          → IsQuantity q (pos_part q)
      fits (pos n) good = record { same = refl; low = ground arith; high = ground arith }
      fits (negsuc n) good = absurd (ground arith)

  pub purchasable_variant-Ends :
      (variant_id : ℕ) (s : Db)
      → (find_purchasable variant_id s ≡ none → E variant_not_purchasable s)
      → Ends (λ v t. (t ≡ s) × (v.id ≡ variant_id)) E (purchasable_variant variant_id s)
  unfolding purchasable_variant
  purchasable_variant-Ends variant_id s refused = then_gets _ _ s (
      Ends-or_raise _ _ s refused
        λ v found. (refl, named v (first-test (is_purchasable variant_id) _ v found)))
    where
      named : (v : Variant) → is_purchasable variant_id v ≡ true → v.id ≡ variant_id
      named v h = ==→≡ v.id variant_id (ground arith)

pub locked_cart-same :
    (user_id : ℕ) (c : Cart) (s : Db)
    → IsTidyDb s
    → cart_of user_id s.carts ≡ some c
    → locked_cart c s ≡ (ok c, s)
unfolding locked_cart ◌>>=◌
locked_cart-same user_id c s h active =
    rw (cart_of-find user_id s.carts c h.carts_keyed active) refl

-- Touching the user's cart after its lines are written leaves a change of the cart by `g`.
pub touch-Refines :
    (user_id : ℕ) (g : ℕ → ℕ → ℕ) (c : Cart) (now : ℕ) (s t : Db)
    → IsTidyDb s
    → cart_of user_id s.carts ≡ some c
    → Relined c g s t
    → Ends (Refines user_id g s) (λ _ _. ⊥) (touch_cart c now t)
touch-Refines user_id g c now s t h active r =
    subst (λ w. Ends (Refines user_id g s) (λ _ _. ⊥) (touch_cart c now w)) (sym r.written)
      (Ends-mono _ _ _ _ _ refined (λ _ _ k. k)
        (touch_cart-touches c now (record s { cart_lines = t.cart_lines })
          (rw (cart_of-find user_id s.carts c h.carts_keyed active) refl)))
  where
    left : Db
    left = record s {
      cart_lines = t.cart_lines;
      carts = update (λ x. x.id == c.id) (touched now) s.carts;
    }

    there : cart_of user_id left.carts ≡ some (touched now c)
    there =
        first-update (λ (x : Cart). x.user_id == user_id && is_open x.status) (λ x. x.id == c.id)
          (touched now) s.carts (λ x. refl)
        ∙ rw (active, ==-refl c.id) refl

    tidied : IsTidyDb left
    tidied = touch-IsTidy r.tidy c.id now

    refined :
        (a : Cart) (w : Db)
        → (w ≡ left) × (find_cart c.id w.carts ≡ some a)
        → Refines user_id g s a w
    refined a w (e, found) = subst (Refines user_id g s a) (sym e) (record {
      tidy = tidied;
      changed = λ u v.
          held_by-touch c.id now u v s.carts t.cart_lines
          ∙ lines-Changed user_id g s.carts s.cart_lines t.cart_lines c u v h.carts_keyed active
              (λ i. r.law i v);
      active =
          there
          ∙ sym (cart_of-find user_id left.carts (touched now c) tidied.carts_keyed there)
          ∙ subst (λ (d : Db). find_cart c.id d.carts ≡ some a) e found;
    })

-- So does leaving the cart as it was.
pub untouched-Refines :
    (user_id : ℕ) (g : ℕ → ℕ → ℕ) (c : Cart) (s t : Db)
    → IsTidyDb s
    → cart_of user_id s.carts ≡ some c
    → Relined c g s t
    → Refines user_id g s c t
untouched-Refines user_id g c s t h active r =
    subst (Refines user_id g s c) (sym r.written) (record {
      tidy = r.tidy;
      changed = λ u v.
          lines-Changed user_id g s.carts s.cart_lines t.cart_lines c u v h.carts_keyed active
            (λ i. r.law i v);
      active = active;
    })

-- A change of the cart that was provided is a change of what the user had before.
pub Provided-Refines :
    (user_id : ℕ) (g : ℕ → ℕ → ℕ) (s t : Db) (c a : Cart) (w : Db)
    → Provided user_id s c t
    → Refines user_id g t a w
    → Refines user_id g s a w
Provided-Refines user_id g s t c a w p r = record {
  tidy = r.tidy;
  changed = λ u v.
      subst (λ n. contents w u v ≡ (if u == user_id then g v n else n)) (p.same u v)
        (r.changed u v);
  active = r.active;
}
