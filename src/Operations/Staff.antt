-- ===== src/Operations/Staff.antt =====
-- apps/operations/staff_services.py: the staff's calls of the services, each with its audit entry
-- in one transaction. `has_perm` and `str` of a UUID are parameters.
use visio_backend.Prelude.{
  Option, none, pos, pos_part, ltb_ℤ, leb_ℤ, save, create, value_error, ◌&&◌, ℕ, Bool, true, false,
  not, ◌||◌, some, ◌++◌, ◌==◌, ℤ, Text, codes, first, Action, Result, pure, gets, or_raise, modify,
  raise_if, branch, atomic, ◌>>=◌, ◌>>◌, does_not_exist, permission_denied,
}
use visio_backend.Commerce.Models.{Inventory, save_inventory, find_variant}
use visio_backend.Commerce.Services.{set_on_hand}
use visio_backend.Database.{Db, Price, on_stock}
use visio_backend.Database.Accounts.{User}
use visio_backend.Database.Orders.{OrderStatus, Order}
use visio_backend.Orders.Lifecycle.{find_order, same_status, advance_fulfillment}
use visio_backend.Operations.Audit.{Encoding, AuditLog, append_audit_event}

-- `User`, as far as its permissions go
pub record Staff : Type 0 where
  pub user : User
  pub is_active : Bool
  pub is_staff : Bool
  pub has_perm : Text → Bool

-- stock on hand, and whether it is active
abbrev pub Level : Type 0
Level = ℕ × Bool

-- the dictionaries `before` and `after` of a price
pub record Terms : Type 0 where
  pub amount_toman : ℕ
  pub compare_at_toman : Option ℕ
  pub is_active : Bool

-- the metadata of the entries
pub data Change : Type 0 where
  order_moved : ℕ → OrderStatus → OrderStatus → Change
  stock_set : ℕ → Level → Level → Change
  price_set : ℕ → Option Terms → Terms → Change

-- the database and the audit log
pub record Office : Type 0 where
  pub db : Db
  pub log : AuditLog Change

abbrev pub with_db : {A : Type 0} → Office → Result A × Db → Result A × Office
with_db o (r, d) = (r, record o { db = d })

abbrev pub with_log : {A : Type 0} → Office → Result A × AuditLog Change → Result A × Office
with_log o (r, l) = (r, record o { log = l })

-- A call that reads and writes the database alone, and one of the audit log.
unfoldable pub on_db : {A : Type 0} → Action Db A → Action Office A
on_db m o = with_db o (m o.db)

unfoldable pub on_log : {A : Type 0} → Action (AuditLog Change) A → Action Office A
on_log m o = with_log o (m o.log)

unfoldable pub require_staff_permission : Staff → Text → Action Office (Unit {0})
require_staff_permission actor permission =
    raise_if (not actor.is_active || not actor.is_staff || not (actor.has_perm permission))
      permission_denied

-- the values of `Order.Status`
abbrev pub status_text : OrderStatus → Text
status_text OrderStatus.pending_payment = codes "pending_payment"
status_text OrderStatus.confirmed = codes "confirmed"
status_text OrderStatus.processing = codes "processing"
status_text OrderStatus.shipped = codes "shipped"
status_text OrderStatus.delivered = codes "delivered"
status_text OrderStatus.cancelled = codes "cancelled"
status_text OrderStatus.expired = codes "expired"

abbrev pub same_level : Level → Level → Bool
same_level (n, true) (k, true) = n == k
same_level (n, false) (k, false) = n == k
same_level (n, _) (k, _) = false

abbrev pub level_of : Inventory → Level
level_of inventory = (inventory.on_hand, inventory.is_active)

-- the second test of `set_price_as_staff`
abbrev pub is_low : Option ℤ → ℤ → Bool
is_low none amount = false
is_low (some compare_at) amount = leb_ℤ compare_at amount

abbrev pub part_of : Option ℤ → Option ℕ
part_of none = none
part_of (some compare_at) = some (pos_part compare_at)

abbrev pub terms_of : Price → Terms
terms_of price = record {
  amount_toman = price.amount_toman;
  compare_at_toman = price.compare_at_toman;
  is_active = price.is_active;
}

abbrev pub same_compare : Option ℕ → Option ℕ → Bool
same_compare none none = true
same_compare (some a) (some b) = a == b
same_compare _ _ = false

-- `before != after`, negated
abbrev pub same_terms : Option Terms → Terms → Bool
same_terms none after = false
same_terms (some before) after =
    same_level (before.amount_toman, before.is_active) (after.amount_toman, after.is_active)
    && same_compare before.compare_at_toman after.compare_at_toman

abbrev pub before_of : Option Price → Option Terms
before_of none = none
before_of (some price) = some (terms_of price)

module _ (e : Encoding Change) (str : ℕ → Text) where
  -- the entry of `advance_order_as_staff`, if the status has changed
  unfoldable pub record_advance : Staff → OrderStatus → Order → ℕ → Action Office (Unit {0})
  record_advance actor previous_status order now =
      branch (same_status order.status previous_status) (pure tt) (
        on_log (
          append_audit_event e (some actor.user) (codes "order.fulfillment_advanced")
            (codes "orders.Order") (str order.id)
            (codes "Order fulfillment advanced from "
              ++ status_text previous_status
              ++ codes " to "
              ++ status_text order.status
              ++ codes ".")
            (order_moved order.public_id previous_status order.status) now)
        >> pure tt)

  unfoldable pub advance_order_as_staff : Staff → ℕ → OrderStatus → ℕ → Action Office Order
  advance_order_as_staff actor order_id target_status now = do
    require_staff_permission actor (codes "orders.change_order")
    atomic do
      before ← or_raise (← gets (λ o. find_order order_id o.db)) does_not_exist
      order ← on_db (advance_fulfillment order_id target_status now)
      record_advance actor before.status order now
      pure order

  -- `if inventory.is_active != is_active: ...`
  unfoldable pub set_active : Inventory → Bool → ℕ → Action Office Inventory
  set_active inventory is_active now =
      branch (same_level (0, inventory.is_active) (0, is_active)) (pure inventory) do
        let row = record inventory { is_active = is_active; updated_at = now }
        modify (λ o. record o { db = record o.db { stock = save_inventory row o.db.stock } })
        pure row

  unfoldable pub record_level : Staff → ℕ → Level → Inventory → ℕ → Action Office (Unit {0})
  record_level actor variant_id before inventory now =
      branch (same_level (level_of inventory) before) (pure tt) (
        on_log (
          append_audit_event e (some actor.user) (codes "inventory.updated")
            (codes "commerce.VariantInventory") (str inventory.id)
            (codes "Variant inventory updated through the staff service boundary.")
            (stock_set variant_id before (level_of inventory)) now)
        >> pure tt)

  unfoldable pub set_inventory_as_staff : Staff → ℕ → ℤ → Bool → ℕ → Action Office Inventory
  set_inventory_as_staff actor variant_id on_hand is_active now = do
    require_staff_permission actor (codes "commerce.change_variantinventory")
    atomic do
      before ←
          or_raise (← gets (λ o. first (λ i. i.variant_id == variant_id) o.db.stock.inventories))
            does_not_exist
      counted ← on_db (on_stock (set_on_hand variant_id on_hand now))
      inventory ← set_active counted is_active now
      record_level actor variant_id (level_of before) inventory now
      pure inventory

  -- the row with these terms is saved, or created
  unfoldable pub put_price : Option Price → ℕ → ℕ → Terms → ℕ → Action Office Price
  put_price (some price) uuid4 variant_id terms now = do
    let row = record price {
      amount_toman = terms.amount_toman;
      compare_at_toman = terms.compare_at_toman;
      is_active = terms.is_active;
      updated_at = now;
    }
    modify (λ o. record o { db = record o.db { prices = save (λ p. p.id) row o.db.prices } })
    pure row
  put_price none uuid4 variant_id terms now = do
    let row : Price = record {
      id = uuid4;
      variant_id = variant_id;
      amount_toman = terms.amount_toman;
      compare_at_toman = terms.compare_at_toman;
      is_active = terms.is_active;
      updated_at = now;
    }
    modify (λ o. record o { db = record o.db { prices = create row o.db.prices } })
    pure row

  unfoldable pub record_price : Staff → ℕ → Option Terms → Price → ℕ → Action Office (Unit {0})
  record_price actor variant_id before price now =
      branch (same_terms before (terms_of price)) (pure tt) (
        on_log (
          append_audit_event e (some actor.user) (codes "price.updated")
            (codes "commerce.VariantPrice") (str price.id)
            (codes "Variant price updated through the staff service boundary.")
            (price_set variant_id before (terms_of price)) now)
        >> pure tt)

  unfoldable pub set_price_as_staff : ℕ → Staff → ℕ → ℤ → Option ℤ → Bool → ℕ → Action Office Price
  set_price_as_staff uuid4 actor variant_id amount_toman compare_at_toman is_active now = do
    require_staff_permission actor (codes "commerce.change_variantprice")
    raise_if (ltb_ℤ amount_toman (pos 0)) value_error
    raise_if (is_low compare_at_toman amount_toman) value_error
    atomic do
      variant ← or_raise (← gets (λ o. find_variant variant_id o.db.stock)) does_not_exist
      existing ← gets (λ o. first (λ p. p.variant_id == variant_id) o.db.prices)
      price ←
          put_price existing uuid4 variant_id
            (record {
              amount_toman = pos_part amount_toman;
              compare_at_toman = part_of compare_at_toman;
              is_active = is_active;
            })
            now
      record_price actor variant_id (before_of existing) price now
      pure price
