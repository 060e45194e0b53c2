-- ===== src/Orders/Lifecycle/Parts.antt =====
-- What the parts of the order transitions change: the loops over the lines write only the stock,
-- and `set_status` one order row and the outbox.
use visio_backend.Prelude.{
  ℕ, ◌≡◌, refl, Option, none, some, ok, err, Error, Result, Text, save, Action, Ends, Ends-pure,
  Ends-branch, Ends-bind, then_gets, then_modify, then_raise_if, then_read,
}
use visio_backend.Commerce.Models.{Stock}
use visio_backend.Commerce.Coverage.{IsCovered}
use visio_backend.Database.{Db, on_stock, with_stock}
use visio_backend.Database.Orders.{OrderStatus, Order}
use visio_backend.Database.Operations.{Notification, DedupeKey}
use visio_backend.Operations.Notifications.{
  validate_header_value, store_notification, queue_notification,
}
use visio_backend.Orders.Lifecycle.{queue_order_notification, set_status}

module _ {A : Type 0} {Q : A → Stock → Type 0} {E : Error → Stock → Type 0} where
  Ends-with_stock :
      (db : Db) (r : Result A × Stock)
      → Ends Q E r
      → Ends
          (λ a t. (t ≡ record db { stock = t.stock }) × Q a t.stock)
          (λ e t. (t ≡ record db { stock = t.stock }) × E e t.stock)
          (with_stock db r)
  Ends-with_stock db (ok a, s) h = record { at = (refl, h.at) }
  Ends-with_stock db (err e, s) h = record { at = (refl, h.at) }

  -- A call of the stock services leaves every other table alone.
  pub Ends-on_stock :
      (m : Action Stock A) (db : Db)
      → Ends Q E (m db.stock)
      → Ends
          (λ a t. (t ≡ record db { stock = t.stock }) × Q a t.stock)
          (λ e t. (t ≡ record db { stock = t.stock }) × E e t.stock)
          (on_stock m db)
  unfolding on_stock
  Ends-on_stock m db h = Ends-with_stock db (m db.stock) h

-- Only the outbox differs.
abbrev pub OutboxOnly : Db → Db → Type 0
OutboxOnly s t = t ≡ record s { outbox = t.outbox }

store_notification-OutboxOnly :
    (found : Option Notification) (row : Notification) (s : Db)
    → Ends (λ _ t. OutboxOnly s t) (λ _ _. Unit {0}) (store_notification found row s)
unfolding store_notification
store_notification-OutboxOnly none row s = then_modify _ _ s (Ends-pure _ _ refl)
store_notification-OutboxOnly (some found) row s =
    then_raise_if _ _ _ s (λ _. tt) λ _. Ends-pure _ _ refl

validate_header_value-reads :
    (value : Text) (s : Db)
    → Ends (λ _ t. (t ≡ s) × Unit {0}) (λ _ t. t ≡ s) (validate_header_value value s)
unfolding validate_header_value
validate_header_value-reads value s =
    then_raise_if _ _ _ s (λ _. refl)
      λ _. then_raise_if _ _ _ s (λ _. refl) λ _. Ends-pure _ s (refl, tt)

pub queue_notification-OutboxOnly :
    (key : DedupeKey) (recipient : Text) (order_public_id : ℕ) (s : Db)
    → Ends
        (λ _ t. OutboxOnly s t)
        (λ _ _. Unit {0})
        (queue_notification key recipient order_public_id s)
unfolding queue_notification
queue_notification-OutboxOnly key recipient order_public_id s =
    then_read (λ _. Unit {0}) _ _ s (validate_header_value-reads recipient s) (λ _. tt)
      λ email _. then_gets _ _ s (store_notification-OutboxOnly _ _ s)

queue_order_notification-OutboxOnly :
    (order : Order) (s : Db)
    → Ends (λ _ t. OutboxOnly s t) (λ _ _. Unit {0}) (queue_order_notification order s)
unfolding queue_order_notification
queue_order_notification-OutboxOnly order s =
    Ends-branch _ _ _ s
      (λ _.
        Ends-bind (λ _ t. OutboxOnly s t) _ _ s (queue_notification-OutboxOnly _ _ _ s)
          λ _ t h. Ends-pure _ t h)
      (λ _. Ends-pure _ s refl)

-- The order row in its new status.
abbrev pub in_status : Order → OrderStatus → ℕ → Order
in_status order status now = record order {
  status = status;
  status_changed_at = now;
  updated_at = now;
}

pub set_status-saves :
    (order : Order) (status : OrderStatus) (now : ℕ) (s : Db)
    → Ends
        (λ row t.
          (row ≡ in_status order status now)
          × OutboxOnly
              (record s { orders = save (λ o. o.id) (in_status order status now) s.orders })
              t)
        (λ _ _. Unit {0})
        (set_status order status now s)
unfolding set_status
set_status-saves order status now s = then_modify _ _ s (
    Ends-bind
      (λ _ t.
        OutboxOnly (record s { orders = save (λ o. o.id) (in_status order status now) s.orders }) t)
      _ _ _ (queue_order_notification-OutboxOnly _ _) λ _ t h. Ends-pure _ t (refl, h))

-- Only the stock differs, and it is covered.
abbrev pub StockOnly : ℕ → Db → Db → Type 0
StockOnly now s t = (t ≡ record s { stock = t.stock }) × IsCovered now t.stock
