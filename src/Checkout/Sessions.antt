-- ===== src/Checkout/Sessions.antt =====
-- Starting, cancelling and ending a session: `_locked_cart_and_prices`, `shipping_quotes`,
-- `_terminate_session`, `create_checkout`, `get_current_checkout` and `cancel_checkout` of
-- apps/checkout/services.py. `uuid4 i` is the `i`-th primary key that a call draws.
pub mod Finalization
use visio_backend.Prelude.{
  ℕ, ◌+◌, ◌*◌, Bool, true, false, not, ◌&&◌, ◌||◌, Option, none, some, List, [], ◌∷◌, map, ltb, leb,
  ◌==◌, ℤ, pos, pos_part, Text, text_eq, strip, is_empty, first, rows, save, create, order_by,
  Error, Action, pure, raise, gets, or_raise, atomic, translate, branch, modify, raise_if, for_each,
  ◌>>=◌, ◌>>◌, does_not_exist, integrity_error, inventory_unavailable, checkout_not_found,
  checkout_conflict, checkout_unavailable, shipping_configuration,
}
use visio_backend.Commerce.Models.{Variant, is_published, find_variant}
use visio_backend.Commerce.Services.{default_reservation_ttl, reserve_variant, release_reservation}
use visio_backend.Database.{Db, Price, on_stock}
use visio_backend.Database.Accounts.{User}
use visio_backend.Database.Carts.{CartStatus, Cart, CartLine}
use visio_backend.Database.Checkout.{
  ShippingMethod, TaxPolicy, SessionStatus, CheckoutSession, CheckoutLine,
}
use visio_backend.Orders.Lifecycle.{lock_user}
use visio_backend.Checkout.Pricing.{ShippingQuote, quote}
use visio_backend.Checkout.Delivery.{
  Collation, address_snapshot, shipping_snapshot, resolve_zone, active_tax_policy, method_for_zone,
  methods_for_zone, owned_address,
}

pub record PricedCartLine : Type 0 where
  pub line : CartLine
  pub unit_price_toman : ℕ

abbrev pub is_open : CartStatus → Bool
is_open CartStatus.active = true
is_open _ = false

-- the active cart of a user, of which there is at most one
abbrev pub active_cart : User → Db → Option Cart
active_cart user db = first (λ c. c.user_id == user.id && is_open c.status) db.carts

abbrev cart_line_before : CartLine → CartLine → Bool
cart_line_before a b = ltb a.variant_id b.variant_id

abbrev pub lines_of_cart : Cart → Db → List CartLine
lines_of_cart cart db = order_by cart_line_before (rows (λ l. l.cart_id == cart.id) db.cart_lines)

-- the loop of `_locked_cart_and_prices`; a variant has one price row
unfoldable pub price_lines : List CartLine → Action Db (List PricedCartLine)
price_lines [] = pure []
price_lines (line ∷ lines) = do
  variant ← or_raise (← gets (λ db. find_variant line.variant_id db.stock)) does_not_exist
  raise_if (not variant.is_active || not (is_published variant.product.status)) checkout_unavailable
  price ←
      or_raise
        (← gets (λ db. first (λ p. p.variant_id == line.variant_id && p.is_active) db.prices))
        checkout_unavailable
  priced ← price_lines lines
  pure (record { line = line; unit_price_toman = price.amount_toman } ∷ priced)

abbrev pub subtotal_of : List PricedCartLine → ℕ
subtotal_of [] = 0
subtotal_of (p ∷ ps) = p.unit_price_toman * p.line.quantity + subtotal_of ps

unfoldable pub locked_cart_and_prices : User → Action Db (Cart × List PricedCartLine × ℕ)
locked_cart_and_prices user = do
  cart ← or_raise (← gets (active_cart user)) checkout_unavailable
  lines ← gets (lines_of_cart cart)
  raise_if (is_empty lines) checkout_unavailable
  priced ← price_lines lines
  pure (cart, priced, subtotal_of priced)

unfoldable pub shipping_quotes : Collation → User → ℕ → Action Db (List ShippingQuote)
shipping_quotes collation user address_id = atomic do
  lock_user user
  address ← owned_address user address_id
  (cart, lines, subtotal) ← locked_cart_and_prices user
  zone ← resolve_zone collation address
  policy ← active_tax_policy collation address.country_code
  methods ← methods_for_zone collation zone
  raise_if (is_empty methods) shipping_configuration
  pure (map (λ method. quote method subtotal policy) methods)

-- ACTIVE or READY
abbrev pub is_current : SessionStatus → Bool
is_current SessionStatus.active = true
is_current SessionStatus.ready = true
is_current _ = false

abbrev same_key : Option ℕ → Option ℕ → Bool
same_key (some a) (some b) = a == b
same_key _ _ = false

-- The unique constraints of `CheckoutSession`.
abbrev pub session_clashes : CheckoutSession → CheckoutSession → Bool
session_clashes row other =
    not (other.id == row.id)
    && (other.user_id == row.user_id
        && (other.idempotency_key == row.idempotency_key
            || (same_key other.finalization_key row.finalization_key
                || (is_current other.status && is_current row.status))))

abbrev pub is_there : {A : Type 0} → Option A → Bool
is_there none = false
is_there (some _) = true

-- `session.save(...)`
unfoldable pub save_session : CheckoutSession → Action Db Unit
save_session row = do
  raise_if (is_there (← gets (λ db. first (session_clashes row) db.sessions))) integrity_error
  modify (λ db. record db { sessions = save (λ x. x.id) row db.sessions })

-- `CheckoutSession.objects.create(...)`
unfoldable pub create_session : CheckoutSession → Action Db Unit
create_session row = do
  raise_if (is_there (← gets (λ db. first (session_clashes row) db.sessions))) integrity_error
  modify (λ db. record db { sessions = create row db.sessions })

abbrev checkout_line_before : CheckoutLine → CheckoutLine → Bool
checkout_line_before a b =
    ltb a.variant_id b.variant_id || (a.variant_id == b.variant_id && ltb a.id b.id)

abbrev pub lines_of_session : CheckoutSession → Db → List CheckoutLine
lines_of_session session db =
    order_by checkout_line_before (rows (λ l. l.checkout_id == session.id) db.checkout_lines)

unfoldable pub release_checkout_line : ℕ → CheckoutLine → Action Db Unit
release_checkout_line now line = do on_stock (release_reservation line.reservation_id now); pure tt

unfoldable pub terminate_session : CheckoutSession → SessionStatus → ℕ → Action Db CheckoutSession
terminate_session session status now =
    branch (is_current session.status)
      (do
        lines ← gets (lines_of_session session)
        for_each lines (release_checkout_line now)
        let row = record session { status = status; updated_at = now }
        save_session row
        pure row)
      (pure session)

-- `except (InventoryUnavailableError, VariantInventory.DoesNotExist) as exc`
abbrev pub stock_to_checkout : Error → Error
stock_to_checkout inventory_unavailable = checkout_unavailable
stock_to_checkout does_not_exist = checkout_unavailable
stock_to_checkout e = e

-- The loop of `create_checkout`. The cart has each variant once and in a bounded quantity, so that
-- the constraints of `CheckoutLine` hold of the rows; its lines are in the order of their variants
-- already.
unfoldable pub reserve_lines :
    (ℕ → ℕ) → CheckoutSession → ℕ → ℕ → List PricedCartLine → Action Db Unit
reserve_lines uuid4 checkout now i [] = pure tt
reserve_lines uuid4 checkout now i (p ∷ ps) = do
  reservation ← translate stock_to_checkout (
      on_stock (
        reserve_variant (uuid4 (2 * i + 1)) p.line.variant_id (pos p.line.quantity)
          default_reservation_ttl now))
  let row : CheckoutLine = record {
    id = uuid4 (2 * i + 2);
    checkout_id = checkout.id;
    variant_id = p.line.variant_id;
    reservation_id = reservation.id;
    quantity = p.line.quantity;
    unit_price_toman = p.unit_price_toman;
    line_total_toman = p.unit_price_toman * p.line.quantity;
  }
  modify (λ db. record db { checkout_lines = create row db.checkout_lines })
  reserve_lines uuid4 checkout now (i + 1) ps

abbrev oldest_first : CheckoutSession → CheckoutSession → Bool
oldest_first a b = ltb a.created_at b.created_at || (a.created_at == b.created_at && ltb a.id b.id)

abbrev pub current_sessions : User → Db → List CheckoutSession
current_sessions user db =
    order_by oldest_first (rows (λ x. x.user_id == user.id && is_current x.status) db.sessions)

unfoldable pub cancel_current : ℕ → CheckoutSession → Action Db Unit
cancel_current now session = do terminate_session session SessionStatus.cancelled now; pure tt

-- `create_checkout` from the look for current sessions on
unfoldable pub open_checkout :
    Collation → (ℕ → ℕ) → User → ℕ → Text → ℕ → ℕ → Action Db CheckoutSession
open_checkout collation uuid4 user address_id method_code idempotency_key now = do
  sessions ← gets (current_sessions user)
  for_each sessions (cancel_current now)
  address ← owned_address user address_id
  (cart, priced_lines, subtotal) ← locked_cart_and_prices user
  zone ← resolve_zone collation address
  method ← method_for_zone collation zone method_code
  tax_policy ← active_tax_policy collation address.country_code
  let q = quote method subtotal tax_policy
  let checkout : CheckoutSession = record {
    id = uuid4 0;
    user_id = user.id;
    cart_id = cart.id;
    address_id = address.id;
    shipping_method_id = method.id;
    idempotency_key = idempotency_key;
    finalization_key = none;
    status = SessionStatus.active;
    cart_revision = cart.revision;
    subtotal_toman = q.subtotal_toman;
    discount_toman = q.discount_toman;
    shipping_toman = q.shipping_toman;
    tax_toman = q.tax_toman;
    payable_toman = q.payable_toman;
    tax_rate_bps = q.tax_rate_bps;
    address_snapshot = address_snapshot address;
    shipping_snapshot = shipping_snapshot method zone;
    expires_at = now + pos_part default_reservation_ttl;
    finalized_at = none;
    created_at = now;
    updated_at = now;
  }
  create_session checkout
  reserve_lines uuid4 checkout now 0 priced_lines
  pure checkout

-- A call again with the same key.
unfoldable pub create_existing :
    Collation
    → Option CheckoutSession
    → (ℕ → ℕ)
    → User
    → ℕ
    → Text
    → ℕ
    → ℕ
    → Action Db CheckoutSession
create_existing collation (some existing) uuid4 user address_id method_code idempotency_key now = do
  raise_if
      (not (existing.address_id == address_id)
        || not (
            text_eq (collation.casefold existing.shipping_snapshot.code)
              (collation.casefold method_code)))
      checkout_conflict
  pure existing
create_existing collation none uuid4 user address_id method_code idempotency_key now =
    open_checkout collation uuid4 user address_id method_code idempotency_key now

unfoldable pub create_checkout :
    Collation → (ℕ → ℕ) → User → ℕ → Text → ℕ → ℕ → Action Db CheckoutSession
create_checkout collation uuid4 user address_id shipping_method_code idempotency_key now = do
  raise_if (is_empty (strip shipping_method_code)) shipping_configuration
  atomic do
    lock_user user
    existing ← gets (λ db.
        first (λ x. x.user_id == user.id && x.idempotency_key == idempotency_key) db.sessions)
    create_existing collation existing uuid4 user address_id (strip shipping_method_code)
        idempotency_key now

abbrev newest_first : CheckoutSession → CheckoutSession → Bool
newest_first a b = ltb b.created_at a.created_at || (a.created_at == b.created_at && ltb a.id b.id)

abbrev pub head? : {A : Type 0} → List A → Option A
head? [] = none
head? (x ∷ _) = some x

-- what `get_current_checkout` does with the newest current session
unfoldable pub drop_late : ℕ → Option CheckoutSession → Action Db (Option CheckoutSession)
drop_late now none = pure none
drop_late now (some session) =
    branch (leb session.expires_at now)
      (do terminate_session session SessionStatus.expired now; pure none) (pure (some session))

unfoldable pub get_current_checkout : User → ℕ → Action Db (Option CheckoutSession)
get_current_checkout user now = atomic do
  lock_user user
  session ← gets (λ db.
      head? (
        order_by newest_first
          (rows (λ x. x.user_id == user.id && is_current x.status) db.sessions)))
  drop_late now session

unfoldable pub owned_session : User → ℕ → Action Db CheckoutSession
owned_session user checkout_id = do
  or_raise (← gets (λ db. first (λ x. x.id == checkout_id && x.user_id == user.id) db.sessions))
      checkout_not_found

abbrev is_completed : SessionStatus → Bool
is_completed SessionStatus.completed = true
is_completed _ = false

unfoldable pub cancel_checkout : User → ℕ → ℕ → Action Db CheckoutSession
cancel_checkout user checkout_id now = atomic do
  lock_user user
  session ← owned_session user checkout_id
  raise_if (is_completed session.status) checkout_conflict
  terminate_session session SessionStatus.cancelled now
