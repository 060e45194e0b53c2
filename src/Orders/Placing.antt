-- ===== src/Orders/Placing.antt =====
-- What `create_order` makes of a ready checkout, once no order answers the request.
use visio_backend.Prelude.{
  ℕ, ◌+◌, ◌≡◌, refl, ◌∙◌, ap, arith, ==→≡, ◌==◌, ◌&&◌, true, false, some, List, [], ◌∷◌, subst,
  save, create, first, Ends, Ends-mono, Ends-atomic, Ends-pure, Ends-bind, Ends-translate,
  translate, then_gets, then_read, then_or_raise, then_modify, then_raise_if,
}
use visio_backend.Database.{Db}
use visio_backend.Database.Carts.{CartStatus, Cart}
use visio_backend.Checkout.Sessions.{is_open, lines_of_session}
use visio_backend.Database.Accounts.{User}
use visio_backend.Database.Checkout.{SessionStatus, CheckoutSession, CheckoutLine}
use visio_backend.Database.Orders.{OrderStatus, Order}
use visio_backend.Orders.Lifecycle.Transitions.{lock_user-reads}
use visio_backend.Orders.Creation.{
  OrderCreationResult, validate_lines, validate_checkout_lines, checkout_to_order, order_of,
  place_order,
}
use visio_backend.Checkout.Delivery.{Collation}
use visio_backend.Orders.Lines.{LinesStored, AreLinesOf, create_order_lines-LinesStored}
use visio_backend.Checkout.Reads.{Reads, owned_session-reads}
use visio_backend.Checkout.Readiness.{IsReady}
use visio_backend.Checkout.Finalize.{revalidate_ready_boundary-IsReady, save_session-saves}
use visio_backend.Checkout.Sessions.Finalization.{revalidate_ready_checkout, is_ready}

revalidate_ready_checkout-IsReady :
    (collation : Collation) (user : User) (checkout_id now : ℕ) (s : Db)
    → Ends
        (λ x t.
          (t ≡ s)
          × ((first (λ y. y.id == checkout_id && y.user_id == user.id) s.sessions ≡ some x)
              × (is_ready x.status ≡ true)
              × IsReady collation user x now s))
        (λ _ t. t ≡ s)
        (revalidate_ready_checkout collation user checkout_id now s)
unfolding revalidate_ready_checkout
revalidate_ready_checkout-IsReady collation user checkout_id now s = Ends-atomic _ s (
    then_read _ _ _ s (lock_user-reads user s) (λ _. refl)
      λ _ _.
        then_read _ _ _ s (owned_session-reads user checkout_id s) (λ _. refl)
          λ x found.
            then_raise_if _ _ _ s (λ _. refl)
              λ ready.
                Ends-bind _ _ _ s
                  (Ends-mono _ _ _ _ _ (λ _ _ h. h) (λ _ _ _. refl)
                    (revalidate_ready_boundary-IsReady collation user x now s))
                  λ _ t (same, is). Ends-pure _ t (same, (found, ground arith, is)))

validate_lines-Reads :
    (now : ℕ) (lines : List CheckoutLine) (s : Db) → Reads (validate_lines now lines) s
unfolding validate_lines
validate_lines-Reads now [] s = Ends-pure 0 s (refl, tt)
validate_lines-Reads now (l ∷ ls) s = then_gets _ _ s (
    then_or_raise _ _ _ s (λ _. refl)
      λ _ _. then_gets _ _ s (
        then_or_raise _ _ _ s (λ _. refl)
          λ _ _.
            then_raise_if _ _ _ s (λ _. refl)
              λ _.
                then_raise_if _ _ _ s (λ _. refl)
                  λ _.
                    then_raise_if _ _ _ s (λ _. refl)
                      λ _.
                        then_raise_if _ _ _ s (λ _. refl)
                          λ _.
                            then_raise_if _ _ _ s (λ _. refl)
                              λ _.
                                then_read _ _ _ s (validate_lines-Reads now ls s) (λ _. refl)
                                  λ _ _. Ends-pure _ s (refl, tt)))

validate_checkout_lines-reads :
    (checkout : CheckoutSession) (now : ℕ) (s : Db)
    → Ends
        (λ lines t. (t ≡ s) × (lines ≡ lines_of_session checkout s))
        (λ _ t. t ≡ s)
        (validate_checkout_lines checkout now s)
unfolding validate_checkout_lines
validate_checkout_lines-reads checkout now s = then_gets _ _ s (
    then_raise_if _ _ _ s (λ _. refl)
      λ _.
        then_read _ _ _ s (validate_lines-Reads now _ s) (λ _. refl)
          λ _ _. then_raise_if _ _ _ s (λ _. refl) λ _. Ends-pure _ s (refl, refl))

-- The order of a request that was answered before.
abbrev pub Answered : User → ℕ → Db → OrderCreationResult → Db → Type 0
Answered user checkout_id s r t =
    (r.created ≡ false)
    × (t ≡ s)
    × (r.order.user_id ≡ user.id)
    × (r.order.checkout_id ≡ checkout_id)

-- The order is a pending one of the user, with the totals and the snapshots of the checkout, and the
-- keys are the first two that are drawn.
pub record IsOrderOf (uuid4 : ℕ → ℕ) (user : User) (checkout : CheckoutSession) (key now : ℕ)
    (o : Order) : Type 0 where
  pub id : o.id ≡ uuid4 0
  pub public_id : o.public_id ≡ uuid4 1
  pub owner : o.user_id ≡ user.id
  pub source : o.checkout_id ≡ checkout.id
  pub request : o.idempotency_key ≡ key
  pub pending : o.status ≡ OrderStatus.pending_payment
  pub dated : o.status_changed_at ≡ now
  pub customer_id : o.customer_snapshot.user_id ≡ user.id
  pub customer_email : o.customer_snapshot.email ≡ user.email
  pub customer_name : o.customer_snapshot.username ≡ user.username
  pub address : o.address_snapshot ≡ checkout.address_snapshot
  pub shipping_method : o.shipping_snapshot ≡ checkout.shipping_snapshot
  pub subtotal : o.subtotal_toman ≡ checkout.subtotal_toman
  pub discount : o.discount_toman ≡ checkout.discount_toman
  pub shipping : o.shipping_toman ≡ checkout.shipping_toman
  pub tax : o.tax_toman ≡ checkout.tax_toman
  pub payable : o.payable_toman ≡ checkout.payable_toman
  pub rate : o.tax_rate_bps ≡ checkout.tax_rate_bps

order_of-IsOrderOf :
    (uuid4 : ℕ → ℕ) (user : User) (checkout : CheckoutSession) (key now : ℕ)
    → IsOrderOf uuid4 user checkout key now (order_of uuid4 user checkout key now)
order_of-IsOrderOf uuid4 user checkout key now = record {
  id = refl;
  public_id = refl;
  owner = refl;
  source = refl;
  request = refl;
  pending = refl;
  dated = refl;
  customer_id = refl;
  customer_email = refl;
  customer_name = refl;
  address = refl;
  shipping_method = refl;
  subtotal = refl;
  discount = refl;
  shipping = refl;
  tax = refl;
  payable = refl;
  rate = refl;
}

-- The cart of the checkout is converted.
pub record CartConverted (user : User) (checkout : CheckoutSession) (now : ℕ) (s t : Db)
    : Type 0 where
  pub cart : Cart
  pub found :
      first (λ c. c.id == checkout.cart_id && c.user_id == user.id && is_open c.status) s.carts
      ≡ some cart
  pub revision : cart.revision ≡ checkout.cart_revision
  pub converted :
      t.carts
      ≡ save
          (λ c. c.id)
          (record cart {
            status = CartStatus.converted;
            revision = cart.revision + 1;
            updated_at = now;
          })
          s.carts

-- A new order, made of a ready checkout.
abbrev pub Placed : Collation → (ℕ → ℕ) → User → ℕ → ℕ → ℕ → Db → OrderCreationResult → Db → Type 0
Placed collation uuid4 user checkout_id key now s r t =
    (r.created ≡ true)
    × ((checkout : CheckoutSession) × (first (λ y. y.id == checkout_id && y.user_id == user.id)
            s.sessions
          ≡ some checkout)
        × (is_ready checkout.status ≡ true)
        × IsReady collation user checkout now s
        × IsOrderOf uuid4 user checkout key now r.order
        × (t.orders ≡ create r.order s.orders)
        × LinesStored r.order.id (lines_of_session checkout s) s t
        × CartConverted user checkout now s t
        × (t.sessions
            ≡ save (λ x. x.id)
                (record checkout { status = SessionStatus.completed; updated_at = now }) s.sessions)
        × (t.stock ≡ s.stock))

pub place_order-Placed :
    (collation : Collation) (uuid4 : ℕ → ℕ) (user : User) (checkout_id key now : ℕ) (s : Db)
    → Ends
        (Placed collation uuid4 user checkout_id key now s)
        (λ _ _. Unit {0})
        (place_order collation uuid4 user checkout_id key now s)
unfolding place_order
place_order-Placed collation uuid4 user checkout_id key now s =
    then_read
      (λ x.
        (first (λ y. y.id == checkout_id && y.user_id == user.id) s.sessions ≡ some x)
        × (is_ready x.status ≡ true)
        × IsReady collation user x now s)
      (translate checkout_to_order (revalidate_ready_checkout collation user checkout_id now)) _ s
      (Ends-translate _ _ s (revalidate_ready_checkout-IsReady collation user checkout_id now s))
      (λ _. tt)
      λ checkout (found, ready, is). then_gets _ _ s (
        then_or_raise _ _ _ s (λ _. tt)
          λ cart found_cart.
            then_raise_if _ _ _ s (λ _. tt)
              λ same_cart.
                then_read _ _ _ s (validate_checkout_lines-reads checkout now s) (λ _. tt)
                  λ lines own. then_modify _ _ s (
                    Ends-bind _ _ _ _ (create_order_lines-LinesStored uuid4 _ 2 lines _)
                      λ _ u (only, placed). then_modify _ _ u (
                        Ends-bind _ _ _ _ (save_session-saves _ _) λ _ t saved. Ends-pure _ t (
                          refl,
                          (
                            checkout,
                            found,
                            ready,
                            is,
                            order_of-IsOrderOf uuid4 user checkout key now,
                            ap (λ (d : Db). d.orders) saved ∙ ap (λ (d : Db). d.orders) only,
                            record {
                              added = placed.added;
                              stored = ap (λ (d : Db). d.order_lines) saved ∙ placed.stored;
                              alike =
                                  subst (λ ls. AreLinesOf (uuid4 0) ls placed.added) own
                                    placed.alike;
                            },
                            record {
                              cart = cart;
                              found = found_cart;
                              revision = ==→≡ _ _ (ground (arith, same_cart));
                              converted =
                                  ap (λ (d : Db). d.carts) saved
                                  ∙ ap
                                      (λ (d : Db).
                                        save (λ x. x.id)
                                          (record cart {
                                            status = CartStatus.converted;
                                            revision = cart.revision + 1;
                                            updated_at = now;
                                          })
                                          d.carts)
                                      only;
                            },
                            ap (λ (d : Db). d.sessions) saved
                                ∙ ap
                                    (λ (d : Db).
                                      save (λ x. x.id)
                                        (record checkout {
                                          status = SessionStatus.completed;
                                          updated_at = now;
                                        })
                                        d.sessions)
                                    only,
                            ap (λ (d : Db). d.stock) saved ∙ ap (λ (d : Db). d.stock) only,
                          ),
                        ))))
