-- ===== src/Checkout/Cover.antt =====
-- No checkout operation promises more stock than there is.
use visio_backend.Prelude.{
  ℕ, ◌+◌, ◌*◌, ◌≡◌, refl, List, [], ◌∷◌, Option, none, some, Text, strip, Action, Ends, Ends-mono,
  Ends-atomic, Ends-pure, Ends-modify, Ends-branch, Ends-bind, Ends-translate, Ends-for_each,
  then_gets, then_read, then_modify, then_raise_if, pos,
}
use visio_backend.Commerce.Models.{Stock, Reservation}
use visio_backend.Commerce.Services.{default_reservation_ttl}
use visio_backend.Commerce.Coverage.{IsCovered}
use visio_backend.Commerce.NoOversell.{reserve_variant-Reserved}
use visio_backend.Commerce.Release.{release_reservation-Freed}
use visio_backend.Database.{Db, on_stock}
use visio_backend.Database.Accounts.{User}
use visio_backend.Database.Checkout.{SessionStatus, CheckoutSession, CheckoutLine}
use visio_backend.Orders.Lifecycle.Parts.{Ends-on_stock}
use visio_backend.Orders.Lifecycle.Transitions.{lock_user-reads}
use visio_backend.Checkout.Delivery.{Collation}
use visio_backend.Checkout.Reads.{
  resolve_zone-Reads, active_tax_policy-Reads, method_for_zone-Reads, owned_address-Reads,
  locked_cart_and_prices-Reads, owned_session-reads,
}
use visio_backend.Checkout.Sessions.{
  PricedCartLine, save_session, create_session, release_checkout_line, terminate_session,
  reserve_lines, cancel_current, open_checkout, create_existing, create_checkout, cancel_checkout,
}

-- The stock of the database is covered.
abbrev pub Covered : ℕ → Db → Type 0
Covered now db = IsCovered now db.stock

module _ (now : ℕ) where
  -- It returns with the stock covered, if it returns.
  abbrev Covers : {A : Type 0} → Action Db A → Db → Type 0
  Covers m s = Ends (λ _ t. Covered now t) (λ _ _. Unit {0}) (m s)

  on_stock-Covers :
      (m : Action Stock Reservation) (s : Db)
      → Ends (λ _ t. IsCovered now t) (λ _ _. Unit {0}) (m s.stock)
      → Covers (on_stock m) s
  on_stock-Covers m s h = Ends-mono _ _ _ _ _ (λ _ t k. k.1) (λ _ _ _. tt) (Ends-on_stock m s h)

  release_checkout_line-Covers :
      (line : CheckoutLine) (s : Db) → Covered now s → Covers (release_checkout_line now line) s
  unfolding release_checkout_line
  release_checkout_line-Covers line s c =
      Ends-bind (λ _ t. Covered now t) _ _ s
        (on_stock-Covers _ s (
          Ends-mono _ _ _ _ _ (λ _ _ h. h.covered) (λ _ _ _. tt)
            (release_reservation-Freed line.reservation_id now s.stock c)))
        λ _ t h. Ends-pure _ t h

  save_session-Covers :
      (row : CheckoutSession) (s : Db) → Covered now s → Covers (save_session row) s
  unfolding save_session
  save_session-Covers row s c =
      then_gets _ _ s (then_raise_if _ _ _ s (λ _. tt) λ _. Ends-modify _ s c)

  create_session-Covers :
      (row : CheckoutSession) (s : Db) → Covered now s → Covers (create_session row) s
  unfolding create_session
  create_session-Covers row s c =
      then_gets _ _ s (then_raise_if _ _ _ s (λ _. tt) λ _. Ends-modify _ s c)

  pub terminate_session-Covers :
      (session : CheckoutSession) (status : SessionStatus) (s : Db)
      → Covered now s
      → Covers (terminate_session session status now) s
  unfolding terminate_session
  terminate_session-Covers session status s c =
      Ends-branch _ _ _ s
        (λ _. then_gets _ _ s (
          Ends-bind (λ _ t. Covered now t) _ _ s
            (Ends-for_each (λ _ t. Covered now t) _ _ s
              (λ line _ t h. release_checkout_line-Covers line t h) c)
            λ _ t h.
              Ends-bind (λ _ u. Covered now u) _ _ t (save_session-Covers _ t h)
                λ _ u k. Ends-pure _ u k))
        (λ _. Ends-pure _ s c)

  reserve_lines-Covers :
      (uuid4 : ℕ → ℕ) (checkout : CheckoutSession) (i : ℕ) (lines : List PricedCartLine) (s : Db)
      → Covered now s
      → Covers (reserve_lines uuid4 checkout now i lines) s
  unfolding reserve_lines
  reserve_lines-Covers uuid4 checkout i [] s c = Ends-pure tt s c
  reserve_lines-Covers uuid4 checkout i (p ∷ ps) s c =
      Ends-bind (λ _ t. Covered now t) _ _ s
        (Ends-translate _ _ s (
          on_stock-Covers _ s (
            Ends-mono _ _ _ _ _ (λ _ _ h. h.0) (λ _ _ _. tt)
              (reserve_variant-Reserved (uuid4 (2 * i + 1)) p.line.variant_id (pos p.line.quantity)
                default_reservation_ttl now s.stock c))))
        λ reservation t h. then_modify _ _ t (reserve_lines-Covers uuid4 checkout (i + 1) ps _ h)

  open_checkout-Covers :
      (collation : Collation) (uuid4 : ℕ → ℕ) (user : User) (address_id : ℕ) (code : Text) (key : ℕ)
      (s : Db)
      → Covered now s
      → Covers (open_checkout collation uuid4 user address_id code key now) s
  unfolding open_checkout cancel_current
  open_checkout-Covers collation uuid4 user address_id code key s c = then_gets _ _ s (
      Ends-bind (λ _ t. Covered now t) _ _ s
        (Ends-for_each (λ _ t. Covered now t) _ _ s
          (λ session _ t h.
            Ends-bind (λ _ u. Covered now u) _ _ t
              (terminate_session-Covers session SessionStatus.cancelled t h)
              λ _ u k. Ends-pure _ u k)
          c)
        λ _ t h.
          then_read _ _ _ t (owned_address-Reads user address_id t) (λ _. tt)
            λ address _.
              then_read _ _ _ t (locked_cart_and_prices-Reads user t) (λ _. tt)
                λ priced _.
                  then_read _ _ _ t (resolve_zone-Reads collation address t) (λ _. tt)
                    λ zone _.
                      then_read _ _ _ t (method_for_zone-Reads collation zone code t) (λ _. tt)
                        λ method _.
                          then_read _ _ _ t
                            (active_tax_policy-Reads collation address.country_code t) (λ _. tt)
                            λ policy _.
                              Ends-bind (λ _ u. Covered now u) _ _ t (create_session-Covers _ t h)
                                λ _ u k.
                                  Ends-bind (λ _ v. Covered now v) _ _ u
                                    (reserve_lines-Covers uuid4 _ 0 priced.1 u k)
                                    λ _ v l. Ends-pure _ v l)

-- From covered stock, starting a checkout keeps the stock covered; where it raises, all is as it was.
pub create_checkout-IsCovered :
    (collation : Collation) (uuid4 : ℕ → ℕ) (user : User) (address_id : ℕ) (code : Text)
    (key now : ℕ) (s : Db)
    → Covered now s
    → Ends
        (λ _ t. Covered now t)
        (λ _ t. t ≡ s)
        (create_checkout collation uuid4 user address_id code key now s)
unfolding create_checkout
create_checkout-IsCovered collation uuid4 user address_id code key now s c =
    then_raise_if _ _ _ s (λ _. refl)
      λ _. Ends-atomic _ s (
        then_read _ _ _ s (lock_user-reads user s) (λ _. refl)
          λ _ _. then_gets _ _ s (Ends-mono _ _ _ _ _ (λ _ _ h. h) (λ _ _ _. refl) (existing _)))
  where
    existing :
        (found : Option CheckoutSession)
        → Covers now (create_existing collation found uuid4 user address_id (strip code) key now) s
    existing none =
        unfold create_existing in
        open_checkout-Covers now collation uuid4 user address_id (strip code) key s c
    existing (some x) =
        unfold create_existing in then_raise_if _ _ _ s (λ _. tt) λ _. Ends-pure x s c

-- From covered stock, cancelling a checkout keeps the stock covered; where it raises, all is as it
-- was.
pub cancel_checkout-IsCovered :
    (user : User) (checkout_id now : ℕ) (s : Db)
    → Covered now s
    → Ends (λ _ t. Covered now t) (λ _ t. t ≡ s) (cancel_checkout user checkout_id now s)
unfolding cancel_checkout
cancel_checkout-IsCovered user checkout_id now s c = Ends-atomic _ s (
    then_read _ _ _ s (lock_user-reads user s) (λ _. refl)
      λ _ _.
        then_read _ _ _ s (owned_session-reads user checkout_id s) (λ _. refl)
          λ session _.
            then_raise_if _ _ _ s (λ _. refl)
              λ _.
                Ends-mono _ _ _ _ _ (λ _ _ h. h) (λ _ _ _. refl)
                  (terminate_session-Covers now session SessionStatus.cancelled s c))
