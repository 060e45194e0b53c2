-- ===== src/Orders/Creation.antt =====
-- `customer_snapshot` to `create_order` of apps/orders/services.py. `uuid4 i` is the `i`-th key
-- that the call draws.
use visio_backend.Prelude.{
  ℕ, ◌+◌, ◌*◌, Bool, true, false, not, ◌&&◌, ◌||◌, Option, none, some, List, [], ◌∷◌, ltb, leb,
  ◌==◌, if◌then◌else◌, is_empty, first, rows, save, create, order_by, Error, Action, pure, gets,
  or_raise, atomic, translate, modify, raise_if, ◌>>=◌, ◌>>◌, does_not_exist, checkout_not_found,
  checkout_conflict, checkout_stale, checkout_unavailable, address_not_serviceable,
  shipping_configuration, tax_policy_unavailable, order_not_found, order_conflict, order_stale,
}
use visio_backend.Commerce.Models.{Variant, is_held, find_variant, find_inventory, find_reservation}
use visio_backend.Database.{Db, Selection}
use visio_backend.Database.Accounts.{User}
use visio_backend.Database.Carts.{CartStatus, Cart}
use visio_backend.Database.Checkout.{SessionStatus, CheckoutSession, CheckoutLine}
use visio_backend.Database.Orders.{OrderStatus, CustomerSnapshot, Order, OptionSnapshot, OrderLine}
use visio_backend.Orders.Lifecycle.{lock_user}
use visio_backend.Checkout.Delivery.{Collation}
use visio_backend.Checkout.Sessions.{is_open, lines_of_session, save_session}
use visio_backend.Checkout.Sessions.Finalization.{revalidate_ready_checkout}

abbrev pub customer_snapshot : User → CustomerSnapshot
customer_snapshot user = record { user_id = user.id; email = user.email; username = user.username }

abbrev selection_before : Selection → Selection → Bool
selection_before a b =
    ltb a.position b.position
    || (a.position == b.position
        && (ltb a.option_key b.option_key || (a.option_key == b.option_key && ltb a.id b.id)))

-- `snapshots[variant_id][option.key] = ...`, a dictionary that keeps the place of a key
abbrev pub put_option : OptionSnapshot → List OptionSnapshot → List OptionSnapshot
put_option o [] = o ∷ []
put_option o (x ∷ xs) = let rest = x ∷ put_option o xs in if x.key == o.key then o ∷ xs else rest

abbrev pub put_options : List Selection → List OptionSnapshot → List OptionSnapshot
put_options [] snapshot = snapshot
put_options (s ∷ ss) snapshot = put_options ss (
    put_option
      (record {
        key = s.option_key;
        value = s.value;
        label = s.value_label;
        option_label = s.option_label;
      })
      snapshot)

-- the entry of one variant in `_option_snapshots`, empty where it has no option
unfoldable pub option_snapshot_of : ℕ → Db → List OptionSnapshot
option_snapshot_of variant_id db =
    put_options (order_by selection_before (rows (λ s. s.variant_id == variant_id) db.selections))
      []

-- the loop of `_validate_checkout_lines`; it returns the subtotal
unfoldable pub validate_lines : ℕ → List CheckoutLine → Action Db ℕ
validate_lines now [] = pure 0
validate_lines now (line ∷ lines) = do
  reservation ←
      or_raise (← gets (λ db. find_reservation line.reservation_id db.stock)) does_not_exist
  inventory ←
      or_raise (← gets (λ db. find_inventory reservation.inventory_id db.stock)) does_not_exist
  raise_if (not (is_held reservation.status)) order_stale
  raise_if (leb reservation.expires_at now) order_stale
  raise_if (not (reservation.quantity == line.quantity)) order_stale
  raise_if (not (inventory.variant_id == line.variant_id)) order_stale
  raise_if (not (line.line_total_toman == line.unit_price_toman * line.quantity)) order_stale
  subtotal ← validate_lines now lines
  pure (line.line_total_toman + subtotal)

unfoldable pub validate_checkout_lines : CheckoutSession → ℕ → Action Db (List CheckoutLine)
validate_checkout_lines checkout now = do
  lines ← gets (lines_of_session checkout)
  raise_if (is_empty lines) order_stale
  subtotal ← validate_lines now lines
  raise_if (not (subtotal == checkout.subtotal_toman)) order_stale
  pure lines

-- what `_existing_order_for_request` does with the order of the key, if there is one
unfoldable pub existing_by_key : Option Order → User → ℕ → Action Db (Option Order)
existing_by_key (some by_key) user checkout_id = do
  raise_if (not (by_key.checkout_id == checkout_id)) order_conflict
  pure (some by_key)
existing_by_key none user checkout_id =
    gets (λ db. first (λ o. o.user_id == user.id && o.checkout_id == checkout_id) db.orders)

unfoldable pub existing_order_for_request : User → ℕ → ℕ → Action Db (Option Order)
existing_order_for_request user checkout_id idempotency_key = do
  by_key ←
      gets
        (λ db. first (λ o. o.user_id == user.id && o.idempotency_key == idempotency_key) db.orders)
  existing_by_key by_key user checkout_id

-- `except CheckoutNotFoundError`, `except CheckoutError`
abbrev pub checkout_to_order : Error → Error
checkout_to_order checkout_not_found = order_not_found
checkout_to_order checkout_conflict = order_stale
checkout_to_order checkout_stale = order_stale
checkout_to_order checkout_unavailable = order_stale
checkout_to_order address_not_serviceable = order_stale
checkout_to_order shipping_configuration = order_stale
checkout_to_order tax_policy_unavailable = order_stale
checkout_to_order e = e

-- the order that is created
abbrev pub order_of : (ℕ → ℕ) → User → CheckoutSession → ℕ → ℕ → Order
order_of uuid4 user checkout idempotency_key now = record {
  id = uuid4 0;
  public_id = uuid4 1;
  user_id = user.id;
  checkout_id = checkout.id;
  idempotency_key = idempotency_key;
  status = OrderStatus.pending_payment;
  status_changed_at = now;
  customer_snapshot = customer_snapshot user;
  address_snapshot = checkout.address_snapshot;
  shipping_snapshot = checkout.shipping_snapshot;
  subtotal_toman = checkout.subtotal_toman;
  discount_toman = checkout.discount_toman;
  shipping_toman = checkout.shipping_toman;
  tax_toman = checkout.tax_toman;
  payable_toman = checkout.payable_toman;
  tax_rate_bps = checkout.tax_rate_bps;
  updated_at = now;
}

abbrev pub line_of : ℕ → ℕ → CheckoutLine → Variant → List OptionSnapshot → OrderLine
line_of id order_id line variant options = record {
  id = id;
  order_id = order_id;
  reservation_id = line.reservation_id;
  source_product_id = variant.product.id;
  source_product_slug = variant.product.slug;
  source_product_name = variant.product.name;
  source_variant_id = variant.id;
  source_variant_sku = variant.sku;
  option_snapshot = options;
  quantity = line.quantity;
  unit_price_toman = line.unit_price_toman;
  line_total_toman = line.line_total_toman;
}

-- the loop over the checkout's lines, from the `i`-th key on
unfoldable pub create_order_lines : (ℕ → ℕ) → Order → ℕ → List CheckoutLine → Action Db Unit
create_order_lines uuid4 order i [] = pure tt
create_order_lines uuid4 order i (line ∷ lines) = do
  variant ← or_raise (← gets (λ db. find_variant line.variant_id db.stock)) does_not_exist
  options ← gets (option_snapshot_of variant.id)
  modify (λ db. record db {
    order_lines = create (line_of (uuid4 i) order.id line variant options) db.order_lines;
  })
  create_order_lines uuid4 order (i + 1) lines

-- `OrderCreationResult`
pub record OrderCreationResult : Type 0 where
  pub order : Order
  pub created : Bool

-- `create_order` from the call of `revalidate_ready_checkout` on. No order of the user has the key or
-- the checkout there, so that the unique constraints of `Order` hold of the new row.
unfoldable pub place_order : Collation → (ℕ → ℕ) → User → ℕ → ℕ → ℕ → Action Db OrderCreationResult
place_order collation uuid4 user checkout_id idempotency_key now = do
  checkout ← translate checkout_to_order (revalidate_ready_checkout collation user checkout_id now)
  cart ←
      or_raise
        (← gets (λ db.
          first (λ c. c.id == checkout.cart_id && c.user_id == user.id && is_open c.status)
            db.carts))
        does_not_exist
  raise_if (not (cart.revision == checkout.cart_revision)) order_stale
  lines ← validate_checkout_lines checkout now
  let order = order_of uuid4 user checkout idempotency_key now
  modify (λ db. record db { orders = create order db.orders })
  create_order_lines uuid4 order 2 lines
  let converted : Cart = record cart {
    status = CartStatus.converted;
    revision = cart.revision + 1;
    updated_at = now;
  }
  modify (λ db. record db { carts = save (λ c. c.id) converted db.carts })
  save_session (record checkout { status = SessionStatus.completed; updated_at = now })
  pure (record { order = order; created = true })

unfoldable pub create_or_return :
    Collation → Option Order → (ℕ → ℕ) → User → ℕ → ℕ → ℕ → Action Db OrderCreationResult
create_or_return collation (some existing) uuid4 user checkout_id idempotency_key now =
    pure (record { order = existing; created = false })
create_or_return collation none uuid4 user checkout_id idempotency_key now =
    place_order collation uuid4 user checkout_id idempotency_key now

unfoldable pub create_order : Collation → (ℕ → ℕ) → User → ℕ → ℕ → ℕ → Action Db OrderCreationResult
create_order collation uuid4 user checkout_id idempotency_key now = atomic do
  lock_user user
  existing ← existing_order_for_request user checkout_id idempotency_key
  create_or_return collation existing uuid4 user checkout_id idempotency_key now
