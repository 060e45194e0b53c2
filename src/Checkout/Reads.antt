-- ===== src/Checkout/Reads.antt =====
-- The steps of apps/checkout/services.py that only read, and what they find.
use visio_backend.Prelude.{
  ℕ, ◌≡◌, refl, ◌==◌, ◌&&◌, List, [], ◌∷◌, some, Text, Error, Action, first, Ends, Ends-pure,
  Ends-raise, Ends-or_raise, then_gets, then_or_raise, then_raise_if, then_read,
}
use visio_backend.Database.{Db}
use visio_backend.Database.Accounts.{User, Address}
use visio_backend.Database.Carts.{CartLine}
use visio_backend.Database.Checkout.{ShippingZone}
use visio_backend.Checkout.Delivery.{
  Collation, the_only, best_zone, resolve_zone, active_tax_policy, method_for_zone, owned_address,
}
use visio_backend.Checkout.Sessions.{price_lines, locked_cart_and_prices, owned_session}

-- It writes nothing, whether it returns or raises.
abbrev pub Reads : {A : Type 0} → Action Db A → Db → Type 0
Reads m s = Ends (λ _ t. (t ≡ s) × Unit {0}) (λ _ t. t ≡ s) (m s)

the_only-Reads :
    {A : Type 0} (nothing several : Error) (xs : List A) (s : Db)
    → Reads (the_only nothing several xs) s
unfolding the_only
the_only-Reads nothing several [] s = Ends-raise nothing s refl
the_only-Reads nothing several (x ∷ []) s = Ends-pure x s (refl, tt)
the_only-Reads nothing several (_ ∷ _ ∷ _) s = Ends-raise several s refl

pub resolve_zone-Reads :
    (collation : Collation) (address : Address) (s : Db) → Reads (resolve_zone collation address) s
unfolding resolve_zone best_zone
resolve_zone-Reads collation address s = then_gets _ _ s (the_only-Reads _ _ _ s)

pub active_tax_policy-Reads :
    (collation : Collation) (code : Text) (s : Db) → Reads (active_tax_policy collation code) s
unfolding active_tax_policy
active_tax_policy-Reads collation code s = then_gets _ _ s (the_only-Reads _ _ _ s)

pub method_for_zone-Reads :
    (collation : Collation) (zone : ShippingZone) (code : Text) (s : Db)
    → Reads (method_for_zone collation zone code) s
unfolding method_for_zone
method_for_zone-Reads collation zone code s = then_gets _ _ s (the_only-Reads _ _ _ s)

pub owned_address-Reads :
    (user : User) (address_id : ℕ) (s : Db) → Reads (owned_address user address_id) s
unfolding owned_address
owned_address-Reads user address_id s =
    then_gets _ _ s (Ends-or_raise _ _ s (λ _. refl) λ _ _. (refl, tt))

price_lines-Reads : (lines : List CartLine) (s : Db) → Reads (price_lines lines) s
unfolding price_lines
price_lines-Reads [] s = Ends-pure [] s (refl, tt)
price_lines-Reads (l ∷ ls) s = then_gets _ _ s (
    then_or_raise _ _ _ s (λ _. refl)
      λ variant _.
        then_raise_if _ _ _ s (λ _. refl)
          λ _. then_gets _ _ s (
            then_or_raise _ _ _ s (λ _. refl)
              λ price _.
                then_read _ _ _ s (price_lines-Reads ls s) (λ _. refl)
                  λ priced _. Ends-pure _ s (refl, tt)))

pub locked_cart_and_prices-Reads : (user : User) (s : Db) → Reads (locked_cart_and_prices user) s
unfolding locked_cart_and_prices
locked_cart_and_prices-Reads user s = then_gets _ _ s (
    then_or_raise _ _ _ s (λ _. refl)
      λ cart _. then_gets _ _ s (
        then_raise_if _ _ _ s (λ _. refl)
          λ _.
            then_read _ _ _ s (price_lines-Reads _ s) (λ _. refl)
              λ priced _. Ends-pure _ s (refl, tt)))

-- The session that is found is the user's, of the key.
pub owned_session-reads :
    (user : User) (checkout_id : ℕ) (s : Db)
    → Ends
        (λ x t.
          (t ≡ s) × (first (λ x. x.id == checkout_id && x.user_id == user.id) s.sessions ≡ some x))
        (λ _ t. t ≡ s)
        (owned_session user checkout_id s)
unfolding owned_session
owned_session-reads user checkout_id s =
    then_gets _ _ s (Ends-or_raise _ _ s (λ _. refl) λ _ found. (refl, found))
