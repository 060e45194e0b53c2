-- ===== src/Orders/Lifecycle/Transitions.antt =====
-- The lifecycle of an order, as a graph, and that every service of it moves one order along an edge
-- or changes nothing.
use mathlib.Core.Bool.{decide}
use visio_backend.Prelude.{
  ℕ, ◌≡◌, ap, refl, ◌∙◌, true, ◌⊎◌, inl, inr, some, arith, All, save, Ends, Ends-mono, Ends-atomic,
  Ends-pure, Ends-branch, Ends-bind, then_gets, then_raise_if, then_read, Ends-or_raise,
}
use visio_backend.Commerce.Coverage.{IsCovered}
use visio_backend.Database.{Db}
use visio_backend.Database.Accounts.{User}
use visio_backend.Database.Orders.{OrderStatus, OrderStatus-discrete, Order}
use visio_backend.Orders.Lifecycle.{
  fulfillment_transitions, is_allowed, is_payment_confirmed, same_status, find_order, lock_user,
  locked_order_by_id, order_lines_for_transition, set_status, close_order,
  confirm_order_after_verified_payment, expire_order, advance_fulfillment,
}
use visio_backend.Orders.Lifecycle.Parts.{in_status, set_status-saves}
use visio_backend.Orders.Lifecycle.Lines.{
  Settled, IsConsumed, IsFreed, consume_lines-settle, release_lines-settle,
}

infix 40 ◌⟶◌
-- The transitions that the lifecycle has.
pub data ◌⟶◌ : OrderStatus → OrderStatus → Type 0 where
  confirm : OrderStatus.pending_payment ⟶ OrderStatus.confirmed
  cancel : OrderStatus.pending_payment ⟶ OrderStatus.cancelled
  expire : OrderStatus.pending_payment ⟶ OrderStatus.expired
  process : OrderStatus.confirmed ⟶ OrderStatus.processing
  ship : OrderStatus.processing ⟶ OrderStatus.shipped
  deliver : OrderStatus.shipped ⟶ OrderStatus.delivered

-- What an order's row was and is after a service has returned `order`: the same, and then nothing
-- has changed, or one edge on, with every other field of it and every other order kept.
pub record Moved (now : ℕ) (s : Db) (old order : Order) (t : Db) : Type 0 where
  pub edge : old.status ⟶ order.status
  pub row : order ≡ in_status old order.status now
  pub orders : t.orders ≡ save (λ o. o.id) order s.orders
  pub lines : t.order_lines ≡ s.order_lines

abbrev pub KeptOrMoved : ℕ → Db → Order → Order → Db → Type 0
KeptOrMoved now s old order t = ((order ≡ old) × (t ≡ s)) ⊎ Moved now s old order t

pub same_status→≡ : (a b : OrderStatus) → same_status a b ≡ true → a ≡ b
unfolding decide
same_status→≡ a b = of_decision (OrderStatus-discrete a b)
  where
    of_decision : (d : Dec (a ≡ b)) → decide d ≡ true → a ≡ b
    of_decision (yes e) h = e
    of_decision (no n) h = absurd (cc)

pub locked_order_by_id-reads :
    (i : ℕ) (s : Db)
    → Ends (λ o t. (t ≡ s) × (find_order i s ≡ some o)) (λ _ t. t ≡ s) (locked_order_by_id i s)
unfolding locked_order_by_id
locked_order_by_id-reads i s =
    then_gets _ _ s (Ends-or_raise _ _ s (λ _. refl) λ o found. (refl, found))

-- The last step of a transition, after a loop that wrote only the stock.
move_on :
    (old : Order) (status : OrderStatus) (now : ℕ) (s u : Db)
    → old.status ⟶ status
    → u ≡ record s { stock = u.stock }
    → Ends
        (λ order t. Moved now s old order t × (order.status ≡ status) × (t.stock ≡ u.stock))
        (λ _ _. Unit {0})
        (set_status old status now u)
move_on old status now s u edge only =
    Ends-mono _ _ _ _ _
      (λ order t (is, out). (
        record {
          edge = rw is edge;
          row = rw is refl;
          orders = ap (λ (d : Db). d.orders) out ∙ rw (is, ap (λ (d : Db). d.orders) only) refl;
          lines = ap (λ (d : Db). d.order_lines) out ∙ ap (λ (d : Db). d.order_lines) only;
        },
        ap (λ (o : Order). o.status) is,
        ap (λ (d : Db). d.stock) out,
      ))
      (λ _ _ h. h) (set_status-saves old status now u)

-- What a payment confirmation ends in: the order of the key, which was already confirmed or further
-- and is returned untouched, or was pending and is confirmed with every line's hold consumed.
abbrev pub ConfirmedFrom : ℕ → ℕ → Db → Order → Db → Type 0
ConfirmedFrom order_id now s order t =
    (old : Order) × (find_order order_id s ≡ some old)
    × (((order ≡ old) × (t ≡ s) × (is_payment_confirmed old.status ≡ true))
        ⊎ (Moved now s old order t
            × (old.status ≡ OrderStatus.pending_payment)
            × (order.status ≡ OrderStatus.confirmed)
            × IsCovered now t.stock
            × All (λ l. Settled IsConsumed l t.stock) (order_lines_for_transition old s)))

-- From covered stock, a payment confirmation that returns found the order confirmed or further and
-- left everything as it was, or found it pending, confirms it, has consumed the hold of every line
-- of it and keeps the stock covered; one that raises leaves everything as it was.
pub confirm_order-ConfirmedFrom :
    (order_id now : ℕ) (s : Db)
    → IsCovered now s.stock
    → Ends
        (ConfirmedFrom order_id now s)
        (λ _ t. t ≡ s)
        (confirm_order_after_verified_payment order_id now s)
unfolding confirm_order_after_verified_payment
confirm_order-ConfirmedFrom order_id now s c = Ends-atomic _ s (
    then_read (λ o. find_order order_id s ≡ some o) _ _ s (locked_order_by_id-reads order_id s)
      (λ _. refl)
      λ old found.
        Ends-branch _ _ _ s (λ before. Ends-pure _ s (old, found, inl (refl, refl, before)))
          λ _.
            then_raise_if _ _ _ s (λ _. refl)
              λ pending. then_gets _ _ s (
                then_raise_if _ _ _ s (λ _. refl)
                  λ _.
                    Ends-bind _ _ _ s
                      (Ends-mono _ _ _ _ _ (λ _ _ h. h) (λ _ _ _. refl)
                        (consume_lines-settle now (order_lines_for_transition old s) s c))
                      λ _ u (only, _, _, done).
                        let was =
                          same_status→≡ old.status OrderStatus.pending_payment (ground arith) in
                        Ends-mono _ _ _ _ _
                          (λ order t (moved, now_is, stock). (
                            old,
                            found,
                            inr (moved, was, now_is, rw stock (only.1), rw stock done),
                          ))
                          (λ _ _ _. refl)
                          (move_on old OrderStatus.confirmed now s u (rw was confirm) only.0)))

-- What a cancellation or an expiry of `old` ends in: the order untouched if it was closed so before,
-- or a pending order closed, with every line's hold free and no stock on hand changed.
abbrev pub ClosedAs : OrderStatus → ℕ → Order → Db → Order → Db → Type 0
ClosedAs status now old s order t =
    ((order ≡ old) × (t ≡ s) × (old.status ≡ status))
    ⊎ (Moved now s old order t
        × (old.status ≡ OrderStatus.pending_payment)
        × (order.status ≡ status)
        × IsCovered now t.stock
        × (t.stock.inventories ≡ s.stock.inventories)
        × All (λ l. Settled IsFreed l t.stock) (order_lines_for_transition old s))

close_order-ClosedAs :
    (old : Order) (status : OrderStatus) (now : ℕ) (s : Db)
    → OrderStatus.pending_payment ⟶ status
    → IsCovered now s.stock
    → Ends (ClosedAs status now old s) (λ _ _. Unit {0}) (close_order old status now s)
unfolding close_order
close_order-ClosedAs old status now s edge c =
    Ends-branch _ _ _ s
      (λ before. Ends-pure _ s (inl (refl, refl, same_status→≡ old.status status before)))
      λ _.
        then_raise_if _ _ _ s (λ _. tt)
          λ pending. then_gets _ _ s (
            Ends-bind _ _ _ s (release_lines-settle now (order_lines_for_transition old s) s c)
              λ _ u (only, _, shelves, done).
                let was = same_status→≡ old.status OrderStatus.pending_payment (ground arith) in
                Ends-mono _ _ _ _ _
                  (λ order t (moved, now_is, stock).
                    inr (moved, was, now_is, rw stock (only.1), rw stock shelves, rw stock done))
                  (λ _ _ _. tt) (move_on old status now s u (rw was edge) only.0))

pub lock_user-reads :
    (user : User) (s : Db) → Ends (λ _ t. (t ≡ s) × Unit {0}) (λ _ t. t ≡ s) (lock_user user s)
unfolding lock_user
lock_user-reads user s = then_gets _ _ s (Ends-or_raise _ _ s (λ _. refl) λ _ _. (refl, tt))

-- From covered stock, an expiry that returns found the order expired before and all is as it was,
-- or waiting for payment, and then it is expired, the holds of its lines are given back, and the
-- stock stays covered. One that raises leaves everything as it was.
pub expire_order-ClosedAs :
    (order_id now : ℕ) (s : Db)
    → IsCovered now s.stock
    → Ends
        (λ order t.
          (old : Order) × (find_order order_id s ≡ some old)
          × ClosedAs OrderStatus.expired now old s order t)
        (λ _ t. t ≡ s)
        (expire_order order_id now s)
unfolding expire_order
expire_order-ClosedAs order_id now s c = Ends-atomic _ s (
    then_read (λ o. find_order order_id s ≡ some o) _ _ s (locked_order_by_id-reads order_id s)
      (λ _. refl)
      λ old found.
        Ends-mono _ _ _ _ _ (λ order t h. (old, found, h)) (λ _ _ _. refl)
          (close_order-ClosedAs old OrderStatus.expired now s expire c))

next_edge :
    (from to : OrderStatus) → is_allowed (fulfillment_transitions from) to ≡ true → from ⟶ to
next_edge OrderStatus.confirmed to h = rw (← same_status→≡ OrderStatus.processing to h) process
next_edge OrderStatus.processing to h = rw (← same_status→≡ OrderStatus.shipped to h) ship
next_edge OrderStatus.shipped to h = rw (← same_status→≡ OrderStatus.delivered to h) deliver
next_edge _ to h = absurd (cc)

-- Fulfilment that returns has the order in the status asked for, either as it was before with all
-- else, or moved there along one edge of the lifecycle, with every other order and the stock
-- untouched; one that raises leaves everything as it was.
pub advance_fulfillment-Moved :
    (order_id : ℕ) (target : OrderStatus) (now : ℕ) (s : Db)
    → Ends
        (λ order t.
          (old : Order) × (find_order order_id s ≡ some old)
          × KeptOrMoved now s old order t
          × (order.status ≡ target)
          × (t.stock ≡ s.stock))
        (λ _ t. t ≡ s)
        (advance_fulfillment order_id target now s)
unfolding advance_fulfillment
advance_fulfillment-Moved order_id target now s = Ends-atomic _ s (
    then_read (λ o. find_order order_id s ≡ some o) _ _ s (locked_order_by_id-reads order_id s)
      (λ _. refl)
      λ old found.
        Ends-branch _ _ _ s
          (λ there.
            Ends-pure _ s
              (old, found, inl (refl, refl), same_status→≡ old.status target there, refl))
          λ _.
            then_raise_if _ _ _ s (λ _. refl)
              λ allowed.
                Ends-mono _ _ _ _ _
                  (λ order t (moved, is, stock). (old, found, inr moved, is, stock)) (λ _ _ _. refl)
                  (move_on old target now s s (next_edge old.status target (ground arith)) refl))
