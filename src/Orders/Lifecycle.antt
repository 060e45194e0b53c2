-- ===== src/Orders/Lifecycle.antt =====
-- The state changes of apps/orders/services.py: payment confirmation, cancellation, expiry and
-- fulfilment. `now` is `at or timezone.now()`.
pub mod Parts
pub mod Lines
pub mod Transitions
pub mod Frame
use visio_backend.Prelude.{
  ℕ, Bool, true, false, not, ◌&&◌, ◌||◌, Option, none, some, List, ltb, ◌==◌, if◌then◌else◌, strip,
  is_empty, first, rows, save, order_by, Action, pure, gets, or_raise, atomic, branch, modify,
  raise_if, for_each, ◌>>=◌, ◌>>◌, does_not_exist, order_not_found, order_stale, order_transition,
}
use mathlib.Core.Bool.{decide}
use visio_backend.Commerce.Services.{consume_reservation, release_reservation}
use visio_backend.Database.{Db, on_stock}
use visio_backend.Database.Accounts.{User}
use visio_backend.Database.Orders.{OrderStatus, OrderStatus-discrete, Order, OrderLine}
use visio_backend.Database.Operations.{order_status}
use visio_backend.Operations.Notifications.{queue_notification}

-- FULFILLMENT_TRANSITIONS
abbrev pub fulfillment_transitions : OrderStatus → Option OrderStatus
fulfillment_transitions OrderStatus.confirmed = some OrderStatus.processing
fulfillment_transitions OrderStatus.processing = some OrderStatus.shipped
fulfillment_transitions OrderStatus.shipped = some OrderStatus.delivered
fulfillment_transitions _ = none

-- the keys of ORDER_NOTIFICATION_SUBJECTS
abbrev pub has_subject : OrderStatus → Bool
has_subject OrderStatus.pending_payment = false
has_subject _ = true

-- the set that `confirm_order_after_verified_payment` returns early on
abbrev pub is_payment_confirmed : OrderStatus → Bool
is_payment_confirmed OrderStatus.confirmed = true
is_payment_confirmed OrderStatus.processing = true
is_payment_confirmed OrderStatus.shipped = true
is_payment_confirmed OrderStatus.delivered = true
is_payment_confirmed _ = false

abbrev pub same_status : OrderStatus → OrderStatus → Bool
same_status a b = decide (OrderStatus-discrete a b)

abbrev pub find_order : ℕ → Db → Option Order
find_order i db = first (λ o. o.id == i) db.orders

-- `User.objects.select_for_update().only("pk").get(pk=user.pk)`
unfoldable pub lock_user : User → Action Db User
lock_user user = do or_raise (← gets (λ db. first (λ u. u.id == user.id) db.users)) does_not_exist

unfoldable pub locked_order_by_id : ℕ → Action Db Order
locked_order_by_id order_id = do or_raise (← gets (find_order order_id)) order_not_found

unfoldable pub locked_owned_order : User → ℕ → Action Db Order
locked_owned_order user public_id = do
  or_raise (← gets (λ db. first (λ o. o.user_id == user.id && o.public_id == public_id) db.orders))
      order_not_found

abbrev by_variant : OrderLine → OrderLine → Bool
by_variant a b =
    ltb a.source_variant_id b.source_variant_id
    || (a.source_variant_id == b.source_variant_id && ltb a.id b.id)

unfoldable pub order_lines_for_transition : Order → Db → List OrderLine
order_lines_for_transition order db =
    order_by by_variant (rows (λ l. l.order_id == order.id) db.order_lines)

unfoldable pub queue_order_notification : Order → Action Db Unit
queue_order_notification order =
    branch (has_subject order.status && not (is_empty (strip order.customer_snapshot.email)))
      (do
        queue_notification (order_status order.id order.status)
            (strip order.customer_snapshot.email) order.public_id
        pure tt)
      (pure tt)

unfoldable pub set_status : Order → OrderStatus → ℕ → Action Db Order
set_status order status now = do
  let row = record order { status = status; status_changed_at = now; updated_at = now }
  modify (λ db. record db { orders = save (λ o. o.id) row db.orders })
  queue_order_notification row
  pure row

-- the loops over the lines
unfoldable pub consume_line : ℕ → OrderLine → Action Db Unit
consume_line now line = do on_stock (consume_reservation line.reservation_id now); pure tt

unfoldable pub release_line : ℕ → OrderLine → Action Db Unit
release_line now line = do on_stock (release_reservation line.reservation_id now); pure tt

unfoldable pub confirm_order_after_verified_payment : ℕ → ℕ → Action Db Order
confirm_order_after_verified_payment order_id now = atomic do
  order ← locked_order_by_id order_id
  branch (is_payment_confirmed order.status) (pure order) do
    raise_if (not (same_status order.status OrderStatus.pending_payment)) order_transition
    lines ← gets (order_lines_for_transition order)
    raise_if (is_empty lines) order_stale
    for_each lines (consume_line now)
    set_status order OrderStatus.confirmed now

-- `cancel_order` and `expire_order` from the test of the status on
unfoldable pub close_order : Order → OrderStatus → ℕ → Action Db Order
close_order order status now = branch (same_status order.status status) (pure order) do
  raise_if (not (same_status order.status OrderStatus.pending_payment)) order_transition
  lines ← gets (order_lines_for_transition order)
  for_each lines (release_line now)
  set_status order status now

unfoldable pub cancel_order : User → ℕ → ℕ → Action Db Order
cancel_order user public_id now = atomic do
  lock_user user
  order ← locked_owned_order user public_id
  close_order order OrderStatus.cancelled now

unfoldable pub expire_order : ℕ → ℕ → Action Db Order
expire_order order_id now =
    atomic do order ← locked_order_by_id order_id; close_order order OrderStatus.expired now

abbrev pub is_allowed : Option OrderStatus → OrderStatus → Bool
is_allowed none target = false
is_allowed (some next) target = same_status next target

unfoldable pub advance_fulfillment : ℕ → OrderStatus → ℕ → Action Db Order
advance_fulfillment order_id target_status now = atomic do
  order ← locked_order_by_id order_id
  branch (same_status order.status target_status) (pure order) do
    raise_if (not (is_allowed (fulfillment_transitions order.status) target_status))
        order_transition
    set_status order target_status now
