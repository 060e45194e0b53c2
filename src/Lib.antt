-- ===== src/Lib.antt =====
-- The commerce core of the VISIO backend, a Django application: stock and reservations, carts,
-- checkout, orders and payments, with the notifications, the audit log and the staff's calls.
--
-- The parts and their files
--
-- - apps/commerce (services.py, models.py): Commerce/Models.antt has the rows, Commerce/Services.antt
--   each function under its own name (`reserve_variant`, `release_reservation`,
--   `consume_reservation`, `set_on_hand`). Their state is `Stock`: variants, inventories and
--   reservations.
-- - The models of the other apps: Database.antt and Database/, one file for each app. `Db` has one
--   list for each table; `stock` is that of apps/commerce, and `on_stock` calls its services.
-- - apps/operations/notifications.py: Operations/Notifications.antt (`queue_notification`) and
--   Operations/Dispatch.antt (`dispatch_notification`, whose two transactions are `claim` and
--   `settle_delivery`). Operations/Delivery.antt runs any number of workers against one outbox. The
--   sender is a parameter.
-- - apps/operations/audit.py: Operations/Audit.antt. The log is a state of its own; printing a payload
--   as JSON and its SHA-256 are parameters.
-- - apps/operations/staff_services.py: Operations/Staff.antt, whose state `Office` is the database and the
--   audit log, so that a transaction spans both.
-- - apps/cart/services.py: Carts/Services.antt (the lines of a cart), Carts/Clamp.antt
--   (`validate_and_clamp_cart`), Carts/Merge.antt (`merge_browser_cart`), each function under its own
--   name. The abstract view is `contents` of Carts/Contents.antt: how many of each variant the active
--   cart of a user holds; `IsTidy` of Carts/Tidy.antt is the well-formedness of the tables. The
--   availability that a clamp reads is that of apps/commerce/projections.py, Commerce/Projections.antt.
-- - apps/checkout/services.py: Checkout/Pricing.antt (`_shipping_amount`, `_tax_amount`, `_quote`),
--   Checkout/Delivery.antt (zones, methods, tax policies, addresses), Checkout/Sessions.antt
--   (`shipping_quotes`, `create_checkout`, `get_current_checkout`, `cancel_checkout`) and
--   Checkout/Sessions/Finalization.antt (`finalize_checkout`, `revalidate_ready_checkout` of
--   apps/checkout/order_bridge.py). Checkout/Readiness.antt, Checkout/Holds.antt and
--   Checkout/Offers.antt describe a session that is ready, apart from how it is tested. A session
--   holds stock through Commerce/Services.antt. Case folding and the collation of the database are
--   parameters.
-- - apps/orders/services.py, up to `create_order`: Orders/Creation.antt. An order takes over the lines,
--   holds, totals and snapshots of a ready checkout, whose cart is converted. Orders/Lines.antt and
--   Orders/Placing.antt follow its two parts.
-- - apps/orders/services.py, from `_locked_order_by_id` on: Orders/Lifecycle.antt. Confirming an
--   order consumes the holds of its lines, cancelling and expiring release them, and each change of
--   status queues a notification.
-- - apps/payments/services.py: Payments/Rows.antt (reading and writing attempts, the constraints of
--   models.py, the receiver of apps/operations/signals.py), Payments/Attempts.antt (`start_payment`),
--   Payments/Verification.antt (`verify_attempt`, `process_callback`). A verified payment confirms
--   its order through Orders/Lifecycle.antt.
-- - apps/payments/providers/base.py: Payments/Provider.antt. The provider is a parameter of the
--   services; it answers, raises ProviderError, or raises what the services do not catch.
-- - apps/payments/providers/zarinpal.py: Payments/Zarinpal.antt, one such provider, over JSON values
--   (Payments/Json.antt). `urlopen`, the JSON codec and the texts of exceptions are parameters.
--   Payments/Approvals.antt describes the exchange that an accepted verification rests on.
--
-- Modelling
--
-- An operation is a function from a state to a result and a state (Prelude/Exceptions.antt): it
-- returns a value or raises one of the exception classes; their messages are left out.
-- `transaction.atomic()` is `atomic`, which puts the state back when its block raises.
-- `select_for_update` reads the row, since the steps of a transaction are not interleaved with those
-- of another that wants the same rows; each call of a service is one step, and a payment service,
-- whose blocks are separate transactions, is a chain of them with the provider's answer between. The
-- two transactions of a dispatch are steps of their own, so that workers interleave.
-- Times are seconds since a fixed origin, keys and UUIDs numbers; `now` is `at or timezone.now()`,
-- and columns with `auto_now` take that clock. Amounts are natural numbers, as the check constraints
-- of the columns have it; a quantity or a time to live that a caller passes is an integer, and so is
-- a provider's code. Loops run over lists, so that nothing needs fuel.
--
-- Not modelled: the HTTP views and serializers, the admin, settings and migrations, the catalogue
-- and content pages, wishlists, accounts, roles, the mail backend.
pub mod Prelude
pub mod Carts
pub mod Checkout
pub mod Commerce
pub mod Database
pub mod Operations
pub mod Orders
pub mod Payments
