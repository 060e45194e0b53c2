-- ===== src/Checkout/Offers.antt =====
-- What the reads of apps/checkout/services.py find: an active method of the zone, the tax policy in
-- force, and the priced lines of a cart.
use visio_backend.Prelude.{
  ℕ, ◌+◌, ◌*◌, ◌≡◌, refl, arith, true, ◌==◌, ==→≡, ◌&&◌, List, [], ◌∷◌, some, Text, text_eq, strip,
  first, Ends, Ends-mono, Ends-pure, Ends-or_raise, then_gets, then_or_raise, then_raise_if,
  then_read,
}
use visio_backend.Database.{Db, Price}
use visio_backend.Database.Accounts.{User}
use visio_backend.Database.Carts.{CartLine}
use visio_backend.Database.Checkout.{ShippingZone, ShippingMethod, TaxPolicy}
use visio_backend.Checkout.Delivery.{
  Collation, policy_before, method_before, active_methods, active_tax_policy, method_for_zone,
  owned_address,
}
use visio_backend.Checkout.Sessions.{
  is_open, lines_of_cart, price_lines, subtotal_of, locked_cart_and_prices,
}
use visio_backend.Checkout.Zones.{IsIn, IsIn-rows, IsIn-order_by, the_only-IsIn}

-- The method is stored, active and of the zone.
pub record IsOffered (zone : ShippingZone) (s : Db) (method : ShippingMethod) : Type 0 where
  pub listed : IsIn method s.methods
  pub of_zone : method.zone_id ≡ zone.id
  pub active : method.is_active ≡ true

-- The policy is stored, active and of the country.
pub record IsInForce (collation : Collation) (country_code : Text) (s : Db) (policy : TaxPolicy)
    : Type 0 where
  pub listed : IsIn policy s.tax_policies
  pub active : policy.is_active ≡ true
  pub of_country : collation.iexact policy.country_code (strip country_code) ≡ true

-- The sum of the cart lines at the active prices of their variants.
pub data IsTotal (s : Db) : List CartLine → ℕ → Type 0 where
  nothing : IsTotal s [] 0
  priced :
      (line : CartLine) (lines : List CartLine) (n : ℕ) (price : Price)
      → first (λ p. p.variant_id == line.variant_id && p.is_active) s.prices ≡ some price
      → IsTotal s lines n
      → IsTotal s (line ∷ lines) (price.amount_toman * line.quantity + n)

active_IsOffered :
    (collation : Collation) (zone : ShippingZone) (s : Db) (m : ShippingMethod)
    → IsIn m (active_methods collation zone s)
    → IsOffered zone s m
unfolding active_methods
active_IsOffered collation zone s m among =
    let (listed, passed) =
      IsIn-rows m (λ x. x.zone_id == zone.id && x.is_active) s.methods
        (IsIn-order_by m (method_before collation) _ among) in
    record {
      listed = listed;
      of_zone = ==→≡ _ _ (ground (arith, passed));
      active = ground (arith, passed);
    }

pub method_for_zone-IsOffered :
    (collation : Collation) (zone : ShippingZone) (code : Text) (s : Db)
    → Ends
        (λ m t. (t ≡ s) × IsOffered zone s m)
        (λ _ t. t ≡ s)
        (method_for_zone collation zone code s)
unfolding method_for_zone
method_for_zone-IsOffered collation zone code s = then_gets _ _ s (
    Ends-mono _ _ _ _ _
      (λ m _ (same, among, only).
        let named =
          IsIn-rows m (λ x. text_eq (collation.casefold x.code) (collation.casefold (strip code)))
            (active_methods collation zone s) among in
        (same, active_IsOffered collation zone s m named.0))
      (λ _ _ h. h) (the_only-IsIn _ _ _ s))

pub active_tax_policy-IsInForce :
    (collation : Collation) (code : Text) (s : Db)
    → Ends
        (λ p t. (t ≡ s) × IsInForce collation code s p)
        (λ _ t. t ≡ s)
        (active_tax_policy collation code s)
unfolding active_tax_policy
active_tax_policy-IsInForce collation code s = then_gets _ _ s (
    Ends-mono _ _ _ _ _
      (λ p _ (same, among, only).
        let (listed, passed) =
          IsIn-rows p (λ x. x.is_active && collation.iexact x.country_code (strip code))
            s.tax_policies (IsIn-order_by p policy_before _ among) in
        (
          same,
          record {
            listed = listed;
            active = ground (arith, passed);
            of_country = ground (arith, passed);
          },
        ))
      (λ _ _ h. h) (the_only-IsIn _ _ _ s))

pub owned_address-found :
    (user : User) (address_id : ℕ) (s : Db)
    → Ends
        (λ a t.
          (t ≡ s) × (first (λ x. x.user_id == user.id && x.id == address_id) s.addresses ≡ some a))
        (λ _ t. t ≡ s)
        (owned_address user address_id s)
unfolding owned_address
owned_address-found user address_id s =
    then_gets _ _ s (Ends-or_raise _ _ s (λ _. refl) λ _ found. (refl, found))

price_lines-IsTotal :
    (lines : List CartLine) (s : Db)
    → Ends (λ ps t. (t ≡ s) × IsTotal s lines (subtotal_of ps)) (λ _ t. t ≡ s) (price_lines lines s)
unfolding price_lines
price_lines-IsTotal [] s = Ends-pure [] s (refl, nothing)
price_lines-IsTotal (l ∷ ls) s = then_gets _ _ s (
    then_or_raise _ _ _ s (λ _. refl)
      λ variant _.
        then_raise_if _ _ _ s (λ _. refl)
          λ _. then_gets _ _ s (
            then_or_raise _ _ _ s (λ _. refl)
              λ price found.
                then_read _ _ _ s (price_lines-IsTotal ls s) (λ _. refl)
                  λ ps total. Ends-pure _ s (refl, priced l ls (subtotal_of ps) price found total)))

pub locked_cart_and_prices-IsTotal :
    (user : User) (s : Db)
    → Ends
        (λ r t.
          (t ≡ s)
          × (first (λ c. c.user_id == user.id && is_open c.status) s.carts ≡ some r.0)
          × IsTotal s (lines_of_cart r.0 s) r.2)
        (λ _ t. t ≡ s)
        (locked_cart_and_prices user s)
unfolding locked_cart_and_prices
locked_cart_and_prices-IsTotal user s = then_gets _ _ s (
    then_or_raise _ _ _ s (λ _. refl)
      λ cart found. then_gets _ _ s (
        then_raise_if _ _ _ s (λ _. refl)
          λ _.
            then_read _ _ _ s (price_lines-IsTotal (lines_of_cart cart s) s) (λ _. refl)
              λ ps total. Ends-pure _ s (refl, found, total)))
