-- ===== src/Orders/Placement.antt =====
-- What `create_order` makes of a checkout.
use mathlib.Core.Option.{some-injective}
use visio_backend.Prelude.{
  ℕ, ◌≡◌, refl, arith, ==→≡, ◌==◌, ◌&&◌, Option, none, some, first-test, ◌⊎◌, inl, inr, first, Ends,
  Ends-mono, Ends-atomic, Ends-pure, Ends-gets, then_gets, then_read, then_raise_if,
}
use visio_backend.Database.{Db}
use visio_backend.Database.Accounts.{User}
use visio_backend.Database.Orders.{Order}
use visio_backend.Orders.Lifecycle.Transitions.{lock_user-reads}
use visio_backend.Orders.Creation.{
  existing_by_key, existing_order_for_request, create_or_return, create_order,
}
use visio_backend.Checkout.Delivery.{Collation}
use visio_backend.Orders.Placing.{Answered, Placed, place_order-Placed}

existing_order_for_request-reads :
    (user : User) (checkout_id key : ℕ) (s : Db)
    → Ends
        (λ o t.
          (t ≡ s)
          × ((x : Order) → o ≡ some x → (x.user_id ≡ user.id) × (x.checkout_id ≡ checkout_id)))
        (λ _ t. t ≡ s)
        (existing_order_for_request user checkout_id key s)
unfolding existing_order_for_request existing_by_key
existing_order_for_request-reads user checkout_id key s = then_gets _ _ s (by_key _ refl)
  where
    by_key :
        (o : Option Order)
        → first (λ x. x.user_id == user.id && x.idempotency_key == key) s.orders ≡ o
        → Ends
            (λ o t.
              (t ≡ s)
              × ((x : Order) → o ≡ some x → (x.user_id ≡ user.id) × (x.checkout_id ≡ checkout_id)))
            (λ _ t. t ≡ s)
            (existing_by_key o user checkout_id s)
    by_key (some y) found =
        then_raise_if _ _ _ s (λ _. refl)
          λ same. Ends-pure _ s (
            refl,
            λ x e.
                let it : y ≡ x = some-injective _ _ e in
                let owned =
                  first-test (λ (z : Order). z.user_id == user.id && z.idempotency_key == key)
                    s.orders y found in
                rw (← it) (==→≡ _ _ (ground arith), ==→≡ _ _ (ground arith)),
          )
    by_key none found = Ends-gets _ s (
      refl,
      λ x e.
          let owned =
            first-test (λ (z : Order). z.user_id == user.id && z.checkout_id == checkout_id)
              s.orders x e in
          (==→≡ _ _ (ground arith), ==→≡ _ _ (ground arith)),
    )

-- An order request that returns either finds an order of this user and checkout and leaves
-- everything as it was, or creates one from a ready checkout of the user, whose lines have their
-- stock held now and whose totals are priced for the user's active cart as it is, at its active
-- prices, by a stored and active method of the zone with the id of the checkout's and the tax
-- policy in force at the address. The order is pending, with the first two keys drawn, the request's
-- key, the user's id, email and username, and the snapshots and each total of the checkout; it is
-- stored after the others, as are its lines, one for each line of the checkout in their order, with
-- its variant, hold, quantity and prices; the cart is stored as converted at the next revision, the
-- session as completed, and the stock is as it was. One that raises leaves everything as it was.
pub create_order-Placed :
    (collation : Collation) (uuid4 : ℕ → ℕ) (user : User) (checkout_id key now : ℕ) (s : Db)
    → Ends
        (λ r t.
          Answered user checkout_id s r t ⊎ Placed collation uuid4 user checkout_id key now s r t)
        (λ _ t. t ≡ s)
        (create_order collation uuid4 user checkout_id key now s)
unfolding create_order
create_order-Placed collation uuid4 user checkout_id key now s = Ends-atomic _ s (
    then_read _ _ _ s (lock_user-reads user s) (λ _. refl)
      λ _ _.
        then_read _ _ _ s (existing_order_for_request-reads user checkout_id key s) (λ _. refl)
          λ o owned. Ends-mono _ _ _ _ _ (λ _ _ h. h) (λ _ _ _. refl) (answer o owned))
  where
    answer :
        (o : Option Order)
        → ((x : Order) → o ≡ some x → (x.user_id ≡ user.id) × (x.checkout_id ≡ checkout_id))
        → Ends
            (λ r t.
              Answered user checkout_id s r t
              ⊎ Placed collation uuid4 user checkout_id key now s r t)
            (λ _ _. Unit {0})
            (create_or_return collation o uuid4 user checkout_id key now s)
    answer none owned =
        unfold create_or_return in
        Ends-mono _ _ _ _ _ (λ _ _ h. inr h) (λ _ _ h. h)
          (place_order-Placed collation uuid4 user checkout_id key now s)
    answer (some x) owned =
        unfold create_or_return in
        Ends-pure _ s (inl (refl, refl, (owned x refl).0, (owned x refl).1))
