-- ===== src/Checkout/Sessions/Finalization.antt =====
-- `_revalidate_ready_boundary` and `finalize_checkout` of apps/checkout/services.py, and
-- `revalidate_ready_checkout` of apps/checkout/order_bridge.py.
use visio_backend.Prelude.{
  ℕ, ◌*◌, Bool, true, false, not, ◌&&◌, ◌||◌, Option, none, some, List, [], ◌∷◌, map, leb, ◌==◌,
  text_eq, first, Action, pure, raise, gets, or_raise, atomic, branch, raise_if, for_each, ◌>>=◌,
  ◌>>◌, does_not_exist, checkout_conflict, checkout_stale,
}
use visio_backend.Commerce.Models.{is_held, find_reservation}
use visio_backend.Database.{Db}
use visio_backend.Database.Accounts.{User}
use visio_backend.Database.Checkout.{
  AddressSnapshot, ShippingSnapshot, SessionStatus, CheckoutSession, CheckoutLine,
}
use visio_backend.Orders.Lifecycle.{lock_user}
use visio_backend.Checkout.Pricing.{ShippingQuote, quote}
use visio_backend.Checkout.Delivery.{
  Collation, address_snapshot, shipping_snapshot, resolve_zone, active_tax_policy, method_for_zone,
  owned_address,
}
use visio_backend.Checkout.Sessions.{
  PricedCartLine, is_open, locked_cart_and_prices, lines_of_session, terminate_session,
  save_session, owned_session,
}

abbrev same_address : AddressSnapshot → AddressSnapshot → Bool
same_address a b =
    a.id == b.id
    && text_eq a.recipient_name b.recipient_name
    && text_eq a.recipient_phone b.recipient_phone
    && text_eq a.country_code b.country_code
    && text_eq a.province b.province
    && text_eq a.city b.city
    && text_eq a.postal_code b.postal_code
    && text_eq a.address_line1 b.address_line1
    && text_eq a.address_line2 b.address_line2

abbrev same_days : Option ℕ → Option ℕ → Bool
same_days none none = true
same_days (some a) (some b) = a == b
same_days _ _ = false

abbrev same_shipping : ShippingSnapshot → ShippingSnapshot → Bool
same_shipping a b =
    a.id == b.id
    && text_eq a.code b.code
    && text_eq a.name b.name
    && text_eq a.zone_code b.zone_code
    && same_days a.delivery_min_days b.delivery_min_days
    && same_days a.delivery_max_days b.delivery_max_days

abbrev pub is_in : ℕ → List ℕ → Bool
is_in x [] = false
is_in x (y ∷ ys) = x == y || is_in x ys

abbrev pub includes : List ℕ → List ℕ → Bool
includes xs [] = true
includes xs (y ∷ ys) = is_in y xs && includes xs ys

-- `a == b` of two sets
abbrev pub same_set : List ℕ → List ℕ → Bool
same_set xs ys = includes xs ys && includes ys xs

-- The loop over the cart's lines; `lines` is the map of `_session_line_map`.
unfoldable pub check_line : List CheckoutLine → PricedCartLine → Action Db Unit
check_line lines p = do
  line ← or_raise (first (λ l. l.variant_id == p.line.variant_id) lines) checkout_stale
  raise_if (not (line.quantity == p.line.quantity)) checkout_stale
  raise_if (not (line.unit_price_toman == p.unit_price_toman)) checkout_stale
  raise_if (not (line.line_total_toman == p.unit_price_toman * p.line.quantity)) checkout_stale

-- The loop over the session's lines.
unfoldable pub check_hold : ℕ → CheckoutLine → Action Db Unit
check_hold now line = do
  inventory ←
      or_raise (← gets (λ db. first (λ v. v.variant_id == line.variant_id) db.stock.inventories))
        checkout_stale
  raise_if (not inventory.is_active) checkout_stale
  reservation ←
      or_raise (← gets (λ db. find_reservation line.reservation_id db.stock)) checkout_stale
  raise_if (not (is_held reservation.status) || leb reservation.expires_at now) checkout_stale
  raise_if (not (reservation.quantity == line.quantity)) checkout_stale

-- `stored == current`
abbrev pub same_totals : CheckoutSession → ShippingQuote → Bool
same_totals session q =
    session.subtotal_toman == q.subtotal_toman
    && session.discount_toman == q.discount_toman
    && session.shipping_toman == q.shipping_toman
    && session.tax_toman == q.tax_toman
    && session.payable_toman == q.payable_toman
    && session.tax_rate_bps == q.tax_rate_bps

-- `_revalidate_ready_boundary` of a session that is not late
unfoldable pub revalidate_fresh : Collation → User → CheckoutSession → ℕ → Action Db Unit
revalidate_fresh collation user session now = do
  cart ←
      or_raise
        (← gets (λ db.
          first (λ c. c.id == session.cart_id && c.user_id == user.id && is_open c.status)
            db.carts))
        checkout_stale
  raise_if (not (cart.revision == session.cart_revision)) checkout_stale
  address ← owned_address user session.address_id
  raise_if (not (same_address (address_snapshot address) session.address_snapshot)) checkout_stale
  zone ← resolve_zone collation address
  stored_method ←
      or_raise (← gets (λ db. first (λ m. m.id == session.shipping_method_id) db.methods))
        does_not_exist
  method ← method_for_zone collation zone stored_method.code
  raise_if
      (not (method.id == session.shipping_method_id)
        || not (same_shipping (shipping_snapshot method zone) session.shipping_snapshot))
      checkout_stale
  tax_policy ← active_tax_policy collation address.country_code
  (cart_locked, priced_lines, subtotal) ← locked_cart_and_prices user
  raise_if (not (cart_locked.id == cart.id) || not (cart_locked.revision == session.cart_revision))
      checkout_stale
  lines ← gets (lines_of_session session)
  raise_if
      (not (same_set (map (λ p. p.line.variant_id) priced_lines) (map (λ l. l.variant_id) lines)))
      checkout_stale
  for_each priced_lines (check_line lines)
  for_each lines (check_hold now)
  raise_if (not (same_totals session (quote method subtotal tax_policy))) checkout_stale

unfoldable pub revalidate_ready_boundary : Collation → User → CheckoutSession → ℕ → Action Db Unit
revalidate_ready_boundary collation user session now =
    branch (leb session.expires_at now)
      (do terminate_session session SessionStatus.expired now; raise checkout_stale)
      (revalidate_fresh collation user session now)

abbrev pub is_ready : SessionStatus → Bool
is_ready SessionStatus.ready = true
is_ready _ = false

abbrev pub is_started : SessionStatus → Bool
is_started SessionStatus.active = true
is_started _ = false

abbrev pub has_key : Option ℕ → ℕ → Bool
has_key none key = false
has_key (some k) key = k == key

-- the branch of `finalize_checkout` for a session that is READY
unfoldable pub finalize_again : CheckoutSession → ℕ → ℕ → Action Db CheckoutSession
finalize_again session idempotency_key now =
    branch (leb session.expires_at now)
      (do terminate_session session SessionStatus.expired now; raise checkout_stale)
      (branch (has_key session.finalization_key idempotency_key) (pure session)
        (raise checkout_conflict))

unfoldable pub finalize_checkout : Collation → User → ℕ → ℕ → ℕ → Action Db CheckoutSession
finalize_checkout collation user checkout_id idempotency_key now = atomic do
  lock_user user
  session ← owned_session user checkout_id
  branch (is_ready session.status) (finalize_again session idempotency_key now) do
    raise_if (not (is_started session.status)) checkout_conflict
    revalidate_ready_boundary collation user session now
    let row = record session {
      status = SessionStatus.ready;
      finalization_key = some idempotency_key;
      finalized_at = some now;
      updated_at = now;
    }
    save_session row
    pure row

-- order_bridge.py
unfoldable pub revalidate_ready_checkout : Collation → User → ℕ → ℕ → Action Db CheckoutSession
revalidate_ready_checkout collation user checkout_id now = atomic do
  lock_user user
  session ← owned_session user checkout_id
  raise_if (not (is_ready session.status)) checkout_conflict
  revalidate_ready_boundary collation user session now
  pure session
