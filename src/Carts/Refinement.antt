-- ===== src/Carts/Refinement.antt =====
-- What the operations of apps/cart/services.py do to what the users' carts hold.
use visio_backend.Prelude.{
  ℕ, ◌+◌, ◌≤◌, ◌≡◌, ◌⊎◌, inl, inr, refl, ◌∙◌, subst, Bool, true, not, Option, none, some, List, [],
  ◌∷◌, ◌==◌, arith, min, Error, Bool-cases, rows, first, first-All, is_empty, ℤ, value_error,
  variant_not_purchasable, cart_not_found, cart_line_not_found, Ends, Ends-mono, Ends-pure,
  Ends-bind, Ends-branch, Ends-atomic, then_same, then_gets, then_ok, then_or_raise, then_modify,
  then_raise_if,
}
use visio_backend.Database.{Db}
use visio_backend.Database.Accounts.{User}
use visio_backend.Database.Carts.{Cart, CartLine}
use visio_backend.Carts.Services.{
  cart_max_quantity, find_purchasable, cart_of, find_cart, is_at, add_to_line, add_cart_line,
  set_cart_line_quantity, remove_cart_line, clear_cart,
}
use visio_backend.Carts.Contents.{contents, quantity_in-remove, quantity_in-clear}
use visio_backend.Carts.Tidy.{IsBounded, rows-IsTidy}
use visio_backend.Carts.Effects.{IsTidyDb, get_or_create_active_cart-Provided, Provided}
use visio_backend.Carts.Lines.{at_variant, place_law, save_quantity-Relined, create_line-Relined}
use visio_backend.Carts.Relining.{
  Refines, Relined, IsQuantity, IsNoQuantity, validate_quantity-Ends, purchasable_variant-Ends,
  locked_cart-same, touch-Refines, untouched-Refines, Provided-Refines,
}

module _ (user_id : ℕ) (c : Cart) (variant_id : ℕ) (s : Db) (h : IsTidyDb s)
    (active : cart_of user_id s.carts ≡ some c) where
  add_to_line-Relined :
      (o : Option CartLine) (uuid4 x now : ℕ)
      → first (is_at c.id variant_id) s.cart_lines ≡ o
      → first (λ l. l.id == uuid4) s.cart_lines ≡ none
      → 1 ≤ x
      → x ≤ cart_max_quantity
      → Ends
          (λ _. Relined c (at_variant variant_id (λ n. min cart_max_quantity (n + x))) s)
          (λ _ _. ⊥)
          (add_to_line o uuid4 c variant_id x now s)
  unfolding add_to_line
  add_to_line-Relined none uuid4 x now e fresh low high =
      create_line-Relined user_id c variant_id s h active uuid4 x now _ fresh e low high
        (omega arith)
  add_to_line-Relined (some l) uuid4 x now e fresh low high =
      save_quantity-Relined user_id c variant_id s h active (min cart_max_quantity (l.quantity + x))
        now _ l e (omega arith) (omega arith) refl

-- What `add_cart_line` may raise, and when.
abbrev pub AddRefused : ℕ → ℤ → Db → Error → Db → Type 0
AddRefused variant_id quantity s e t =
    (t ≡ s)
    × (((e ≡ value_error) × IsNoQuantity quantity)
        ⊎ ((e ≡ variant_not_purchasable) × (find_purchasable variant_id s ≡ none)))

-- From tidy tables and with fresh keys, `add_cart_line` either leaves tidy tables in which the user
-- has min(99, n + x) of the variant where there were n, for the quantity x, every other amount of
-- every user is unchanged, and the returned cart is the user's active one; or it changes nothing,
-- because the quantity is none from 1 to 99 (ValueError) or the variant is not purchasable (its own
-- error).
pub add_cart_line-Refines :
    (uuid4 : ℕ → ℕ) (user : User) (variant_id : ℕ) (quantity : ℤ) (now : ℕ) (s : Db)
    → IsTidyDb s
    → find_cart (uuid4 0) s.carts ≡ none
    → first (λ l. l.id == uuid4 1) s.cart_lines ≡ none
    → Ends
        (λ a t.
          (x : ℕ) × IsQuantity quantity x
          × Refines user.id (at_variant variant_id (λ n. min cart_max_quantity (n + x))) s a t)
        (AddRefused variant_id quantity s)
        (add_cart_line uuid4 user variant_id quantity now s)
unfolding add_cart_line
add_cart_line-Refines uuid4 user variant_id quantity now s h fresh new =
    then_same (IsQuantity quantity) _ _ s
      (validate_quantity-Ends quantity s λ bad. (refl, inl (refl, bad)))
      λ x q.
        then_same (λ v. v.id ≡ variant_id) _ _ s
          (purchasable_variant-Ends variant_id s λ gone. (refl, inr (refl, gone)))
          λ v named.
            Ends-bind (Provided user.id s) _ _ s
              (Ends-mono _ _ _ _ _ (λ _ _ p. p) (λ _ _ k. absurd k)
                (get_or_create_active_cart-Provided (uuid4 0) user now s h fresh))
              λ c t p. Ends-atomic _ t (
                then_ok _ _ t (locked_cart-same user.id c t p.tidy p.active) (
                  then_gets _ _ t (
                    Ends-bind
                      (λ _. Relined c (at_variant v.id (λ n. min cart_max_quantity (n + x))) t) _ _
                      t
                      (Ends-mono _ _ _ _ _ (λ _ _ k. k) (λ _ _ k. absurd k)
                        (add_to_line-Relined user.id c v.id t p.tidy p.active _ (uuid4 1) x now refl
                          (rw p.lines new) q.low q.high))
                      λ _ w r.
                        Ends-mono _ _ _ _ _
                          (λ a u k. (
                            x,
                            q,
                            subst
                                (λ i.
                                  Refines user.id
                                    (at_variant i (λ n. min cart_max_quantity (n + x))) s a u)
                                named (Provided-Refines user.id _ s t c a u p k),
                          ))
                          (λ _ _ k. absurd k)
                          (touch-Refines user.id _ c now t w p.tidy p.active r))))

-- The refusals that an operation on a line of the user's cart shares: there is no cart, or the user
-- has none of the variant.
abbrev pub LineRefused : User → ℕ → Db → Error → Type 0
LineRefused user variant_id s e =
    ((e ≡ cart_not_found) × (cart_of user.id s.carts ≡ none))
    ⊎ ((e ≡ cart_line_not_found) × (contents s user.id variant_id ≡ 0))

abbrev pub SetRefused : User → ℕ → ℤ → Db → Error → Db → Type 0
SetRefused user variant_id quantity s e t =
    (t ≡ s) × (((e ≡ value_error) × IsNoQuantity quantity) ⊎ LineRefused user variant_id s e)

-- From tidy tables, `set_cart_line_quantity` either leaves tidy tables in which the user has
-- exactly the quantity of the variant where there was at least one, every other amount of every
-- user is unchanged, and the returned cart is the user's active one; or it changes nothing, because
-- the quantity is none from 1 to 99 (ValueError), there is no active cart, or the user has none of
-- the variant (each with its own error).
pub set_cart_line_quantity-Refines :
    (user : User) (variant_id : ℕ) (quantity : ℤ) (now : ℕ) (s : Db)
    → IsTidyDb s
    → Ends
        (λ a t.
          (x : ℕ) × IsQuantity quantity x
          × (1 ≤ contents s user.id variant_id)
          × Refines user.id (at_variant variant_id (λ _. x)) s a t)
        (SetRefused user variant_id quantity s)
        (set_cart_line_quantity user variant_id quantity now s)
unfolding set_cart_line_quantity
set_cart_line_quantity-Refines user variant_id quantity now s h =
    then_same (IsQuantity quantity) _ _ s
      (validate_quantity-Ends quantity s λ bad. (refl, inl (refl, bad)))
      λ x q. then_gets _ _ s (
        then_or_raise _ _ _ s (λ gone. (refl, inr (inl (refl, gone))))
          λ c active. Ends-atomic _ s (
            then_ok _ _ s (locked_cart-same user.id c s h active) (
              then_gets _ _ s (
                then_or_raise _ _ _ s (λ gone. (refl, inr (inr (refl, empty_at c active gone))))
                  λ l found.
                    Ends-bind (λ _. Relined c (at_variant variant_id (λ _. x)) s) _ _ s
                      (Ends-mono _ _ _ _ _ (λ _ _ k. k) (λ _ _ k. absurd k)
                        (save_quantity-Relined user.id c variant_id s h active x now _ l found q.low
                          q.high refl))
                      λ _ w r.
                        Ends-mono _ _ _ _ _ (λ a u k. (x, q, some_at c l active found, k))
                          (λ _ _ k. absurd k) (touch-Refines user.id _ c now s w h active r)))))
  where
    empty_at :
        (c : Cart)
        → cart_of user.id s.carts ≡ some c
        → first (is_at c.id variant_id) s.cart_lines ≡ none
        → contents s user.id variant_id ≡ 0
    empty_at c active gone = rw (active, gone) refl

    some_at :
        (c : Cart) (l : CartLine)
        → cart_of user.id s.carts ≡ some c
        → first (is_at c.id variant_id) s.cart_lines ≡ some l
        → 1 ≤ contents s user.id variant_id
    some_at c l active found =
        rw (active, found)
          (first-All IsBounded (is_at c.id variant_id) s.cart_lines l h.bounded found).0

-- Where no row passes, none is found.
first-rows_empty :
    (p : CartLine → Bool) (xs : List CartLine) → is_empty (rows p xs) ≡ true → first p xs ≡ none
first-rows_empty p [] h = refl
first-rows_empty p (x ∷ xs) h = elim (Bool-cases (p x)) [
  | inl t ↦ absurd (cc (rw t at h))
  | inr f ↦ rw f (first-rows_empty p xs (rw f at h))
]

-- From tidy tables, `remove_cart_line` either leaves tidy tables in which the user has none of the
-- variant, every other amount of every user is unchanged, and the returned cart is the user's
-- active one; or it changes nothing, because there is no active cart or the user has none of the
-- variant (each with its own error).
pub remove_cart_line-Refines :
    (user : User) (variant_id now : ℕ) (s : Db)
    → IsTidyDb s
    → Ends
        (Refines user.id (at_variant variant_id (λ _. 0)) s)
        (λ e t. (t ≡ s) × LineRefused user variant_id s e)
        (remove_cart_line user variant_id now s)
unfolding remove_cart_line
remove_cart_line-Refines user variant_id now s h = then_gets _ _ s (
    then_or_raise _ _ _ s (λ gone. (refl, inl (refl, gone)))
      λ c active. Ends-atomic _ s (
        then_ok _ _ s (locked_cart-same user.id c s h active) (
          then_gets _ _ s (
            then_modify _ _ s (
              then_raise_if _ _ _ _
                (λ gone. (
                  refl,
                  inr (
                    refl,
                    rw (active, first-rows_empty (is_at c.id variant_id) s.cart_lines gone) refl,
                  ),
                ))
                λ _.
                  Ends-mono _ _ _ _ _ (λ _ _ k. k) (λ _ _ k. absurd k)
                    (touch-Refines user.id _ c now s _ h active (record {
                      written = refl;
                      tidy = rows-IsTidy h (λ l. not (is_at c.id variant_id l));
                      law = λ i v.
                          quantity_in-remove c.id variant_id s.cart_lines i v
                          ∙ place_law i c.id v variant_id (λ _. 0) _;
                    })))))))

-- From tidy tables and with a fresh key, `clear_cart` does not raise, and leaves tidy tables in
-- which the user has none of any variant, the amounts of the other users are unchanged, and the
-- returned cart is the user's active one.
pub clear_cart-Refines :
    (uuid4 : ℕ) (user : User) (now : ℕ) (s : Db)
    → IsTidyDb s
    → find_cart uuid4 s.carts ≡ none
    → Ends (Refines user.id (λ _ _. 0) s) (λ _ _. ⊥) (clear_cart uuid4 user now s)
unfolding clear_cart
clear_cart-Refines uuid4 user now s h fresh =
    Ends-bind (Provided user.id s) _ _ s
      (get_or_create_active_cart-Provided uuid4 user now s h fresh)
      λ c t p.
        let emptied : Relined c (λ _ _. 0) t
            (record t { cart_lines = rows (λ l. not (l.cart_id == c.id)) t.cart_lines }) =
          record {
            written = refl;
            tidy = rows-IsTidy p.tidy (λ l. not (l.cart_id == c.id));
            law = λ i v. quantity_in-clear c.id t.cart_lines i v;
          } in
        Ends-atomic _ t (
          then_ok _ _ t (locked_cart-same user.id c t p.tidy p.active) (
            then_gets _ _ t (
              then_modify _ _ t (
                Ends-branch _ _ _ _
                  (λ _. Ends-pure c _ (
                    Provided-Refines user.id _ s t c c _ p
                      (untouched-Refines user.id _ c t _ p.tidy p.active emptied)))
                  λ _.
                    Ends-mono _ _ _ _ _ (λ a u k. Provided-Refines user.id _ s t c a u p k)
                      (λ _ _ k. k) (touch-Refines user.id _ c now t _ p.tidy p.active emptied)))))
