-- ===== src/Checkout/Readiness.antt =====
-- What a finalized checkout is: its totals are those of the cart as it stands, and the stock of every
-- line is held for it.
use visio_backend.Prelude.{
  ℕ, ◌<◌, ◌≡◌, refl, arith, true, ==→≡, some, All, Ends, Ends-ok, sym, subst, first, ◌==◌, ◌&&◌,
  then_gets, then_read, then_or_raise, then_raise_if, Ends-raise_if, then_run,
}
use visio_backend.Database.{Db}
use visio_backend.Database.Accounts.{User, Address}
use visio_backend.Database.Carts.{Cart}
use visio_backend.Database.Checkout.{ShippingZone, ShippingMethod, TaxPolicy, CheckoutSession}
use visio_backend.Checkout.Delivery.{Collation}
use visio_backend.Checkout.Pricing.{ShippingQuote, quote}
use visio_backend.Checkout.Rounding.{IsPriced, quote-IsPriced}
use visio_backend.Checkout.Zones.{IsBest, resolve_zone-IsBest}
use visio_backend.Checkout.Offers.{
  IsOffered, IsInForce, IsTotal, method_for_zone-IsOffered, active_tax_policy-IsInForce,
  owned_address-found, locked_cart_and_prices-IsTotal,
}
use visio_backend.Checkout.Reads.{
  resolve_zone-Reads, active_tax_policy-Reads, method_for_zone-Reads, owned_address-Reads,
  locked_cart_and_prices-Reads,
}
use visio_backend.Checkout.Sessions.{is_open, lines_of_cart, lines_of_session}
use visio_backend.Checkout.Sessions.Finalization.{same_totals, revalidate_fresh}
use visio_backend.Checkout.Holds.{IsHolding, check_lines-Reads, check_holds-IsHolding}

-- The totals that a session keeps, as a quote by a method.
abbrev totals_of : ShippingMethod → CheckoutSession → ShippingQuote
totals_of method session = record {
  method = method;
  subtotal_toman = session.subtotal_toman;
  discount_toman = session.discount_toman;
  shipping_toman = session.shipping_toman;
  tax_toman = session.tax_toman;
  payable_toman = session.payable_toman;
  tax_rate_bps = session.tax_rate_bps;
}

-- What `_revalidate_ready_boundary` has found: every line of the session is held, and the totals of
-- the session are priced, by the stored method of the session's, which is active in the best zone of
-- the session's address, and the tax policy in force there, for the user's active cart as it is now,
-- at the session's own revision and the active prices.
pub record IsReady (collation : Collation) (user : User) (session : CheckoutSession) (now : ℕ)
    (s : Db) : Type 0 where
  pub fresh : now < session.expires_at
  pub holds : All (IsHolding now s) (lines_of_session session s)
  pub address : Address
  pub located :
      first (λ a. a.user_id == user.id && a.id == session.address_id) s.addresses ≡ some address
  pub zone : ShippingZone
  pub nearest : IsBest collation address s zone
  pub method : ShippingMethod
  pub chosen : method.id ≡ session.shipping_method_id
  pub offered : IsOffered zone s method
  pub policy : TaxPolicy
  pub in_force : IsInForce collation address.country_code s policy
  pub cart : Cart
  pub filled : first (λ c. c.user_id == user.id && is_open c.status) s.carts ≡ some cart
  pub revision : cart.revision ≡ session.cart_revision
  pub subtotal : ℕ
  pub counted : IsTotal s (lines_of_cart cart s) subtotal
  pub totals : IsPriced method subtotal policy (totals_of method session)

same_totals-IsPriced :
    (session : CheckoutSession) (method : ShippingMethod) (subtotal : ℕ) (policy : TaxPolicy)
    (q : ShippingQuote)
    → same_totals session q ≡ true
    → IsPriced method subtotal policy (record q { method = method })
    → IsPriced method subtotal policy (totals_of method session)
same_totals-IsPriced session method subtotal policy q same h =
    let Priced = λ (r : ShippingQuote). IsPriced method subtotal policy r in
    let a : session.subtotal_toman ≡ q.subtotal_toman = ==→≡ _ _ (ground arith) in
    let b : session.discount_toman ≡ q.discount_toman = ==→≡ _ _ (ground arith) in
    let c : session.shipping_toman ≡ q.shipping_toman = ==→≡ _ _ (ground arith) in
    let d : session.tax_toman ≡ q.tax_toman = ==→≡ _ _ (ground arith) in
    let e : session.payable_toman ≡ q.payable_toman = ==→≡ _ _ (ground arith) in
    let f : session.tax_rate_bps ≡ q.tax_rate_bps = ==→≡ _ _ (ground arith) in
    subst Priced
      (λ i. record {
        method = method;
        subtotal_toman = sym a i;
        discount_toman = sym b i;
        shipping_toman = sym c i;
        tax_toman = sym d i;
        payable_toman = sym e i;
        tax_rate_bps = sym f i;
      })
      h

quote-IsPriced_by :
    (method : ShippingMethod) (subtotal : ℕ) (policy : TaxPolicy)
    → IsPriced method subtotal policy (record (quote method subtotal policy) { method = method })
unfolding quote
quote-IsPriced_by method subtotal policy = quote-IsPriced method subtotal policy

pub revalidate_fresh-IsReady :
    (collation : Collation) (user : User) (session : CheckoutSession) (now : ℕ) (s : Db)
    → now < session.expires_at
    → Ends
        (λ _ t. (t ≡ s) × IsReady collation user session now s)
        (λ _ t. t ≡ s)
        (revalidate_fresh collation user session now s)
unfolding revalidate_fresh
revalidate_fresh-IsReady collation user session now s fresh = then_gets _ _ s (
    then_or_raise _ _ _ s (λ _. refl)
      λ open_cart _.
        then_raise_if _ _ _ s (λ _. refl)
          λ _.
            then_run _ _ s (owned_address-Reads user session.address_id s) (λ _. refl)
              λ address address_read.
                then_raise_if _ _ _ s (λ _. refl)
                  λ _.
                    then_run _ _ s (resolve_zone-Reads collation address s) (λ _. refl)
                      λ zone zone_read. then_gets _ _ s (
                        then_or_raise _ _ _ s (λ _. refl)
                          λ stored_method _.
                            then_run _ _ s
                              (method_for_zone-Reads collation zone stored_method.code s)
                              (λ _. refl)
                              λ method method_read.
                                then_raise_if _ _ _ s (λ _. refl)
                                  λ chosen.
                                    then_run _ _ s
                                      (active_tax_policy-Reads collation address.country_code s)
                                      (λ _. refl)
                                      λ policy policy_read.
                                        then_run _ _ s (locked_cart_and_prices-Reads user s)
                                          (λ _. refl)
                                          λ priced cart_read.
                                            then_raise_if _ _ _ s (λ _. refl)
                                              λ same_cart. then_gets _ _ s (
                                                then_raise_if _ _ _ s (λ _. refl)
                                                  λ _.
                                                    then_read _ _ _ s (check_lines-Reads _ _ s)
                                                      (λ _. refl)
                                                      λ _ _.
                                                        then_read _ _ _ s
                                                          (check_holds-IsHolding now _ s)
                                                          (λ _. refl)
                                                          λ _ holds.
                                                            Ends-raise_if _ _ s (λ _. refl)
                                                            λ same. (
                                                            refl,
                                                            record {
                                                            fresh = fresh;
                                                            holds = holds;
                                                            address = address;
                                                            located =
                                                            (Ends-ok
                                                            (owned_address-found user
                                                            session.address_id s)
                                                            _ _ address_read).1;
                                                            zone = zone;
                                                            nearest =
                                                            (Ends-ok
                                                            (resolve_zone-IsBest collation address
                                                            s)
                                                            _ _ zone_read).1;
                                                            method = method;
                                                            chosen = ==→≡ _ _ (ground arith);
                                                            offered =
                                                            (Ends-ok
                                                            (method_for_zone-IsOffered collation
                                                            zone stored_method.code s)
                                                            _ _ method_read).1;
                                                            policy = policy;
                                                            in_force =
                                                            (Ends-ok
                                                            (active_tax_policy-IsInForce collation
                                                            address.country_code s)
                                                            _ _ policy_read).1;
                                                            cart = priced.0;
                                                            filled =
                                                            (Ends-ok
                                                            (locked_cart_and_prices-IsTotal user s)
                                                            _ _ cart_read).1;
                                                            subtotal = priced.2;
                                                            counted =
                                                            (Ends-ok
                                                            (locked_cart_and_prices-IsTotal user s)
                                                            _ _ cart_read).2;
                                                            revision = ==→≡ _ _ (ground arith);
                                                            totals =
                                                            same_totals-IsPriced session method
                                                            priced.2 policy
                                                            (quote method priced.2 policy)
                                                            (ground arith)
                                                            (quote-IsPriced_by method priced.2
                                                            policy);
                                                            },
                                                            ))))
