-- ===== src/Orders/Lifecycle/Frame.antt =====
-- A payment confirmation writes one order, the stock and the outbox alone, whatever state it meets.
use visio_backend.Prelude.{
  ℕ, ◌≡◌, refl, sym, ◌∙◌, ap, ◌⊎◌, inl, inr, some, List, arith, save, for_each, Ends, Ends-mono,
  Ends-any, Ends-atomic, Ends-pure, Ends-branch, Ends-bind, Ends-for_each, then_gets, then_raise_if,
  then_read,
}
use visio_backend.Commerce.Models.{Stock}
use visio_backend.Commerce.Services.{consume_reservation}
use visio_backend.Database.{Db}
use visio_backend.Database.Orders.{OrderStatus, Order, OrderLine}
use visio_backend.Orders.Lifecycle.{
  find_order, consume_line, order_lines_for_transition, confirm_order_after_verified_payment,
}
use visio_backend.Orders.Lifecycle.Parts.{Ends-on_stock, OutboxOnly, in_status, set_status-saves}
use visio_backend.Orders.Lifecycle.Transitions.{same_status→≡, locked_order_by_id-reads}

-- `t` is `s` but for its orders, which are `orders`, its stock and its outbox.
abbrev pub OrdersAre : List Order → Db → Db → Type 0
OrdersAre orders s t = t ≡ record s { stock = t.stock; orders = orders; outbox = t.outbox }

consume_line-frame :
    (now : ℕ) (line : OrderLine) (s : Db)
    → Ends (λ _ t. t ≡ record s { stock = t.stock }) (λ _ _. Unit {0}) (consume_line now line s)
unfolding consume_line
consume_line-frame now line s =
    Ends-bind (λ _ t. t ≡ record s { stock = t.stock }) _ _ s
      (Ends-mono _ _ _ _ _ (λ _ _ h. h.0) (λ _ _ _. tt)
        (Ends-on_stock (consume_reservation line.reservation_id now) s (Ends-any _)))
      λ _ t h. Ends-pure _ t h

consume_lines-frame :
    (now : ℕ) (lines : List OrderLine) (s : Db)
    → Ends
        (λ _ t. t ≡ record s { stock = t.stock })
        (λ _ _. Unit {0})
        (for_each lines (consume_line now) s)
consume_lines-frame now lines s =
    Ends-for_each (λ _ t. t ≡ record s { stock = t.stock }) (consume_line now) lines s
      (λ line rest u h.
        Ends-mono _ _ _ _ _ (λ _ t k. k ∙ rw h refl) (λ _ _ k. k) (consume_line-frame now line u))
      refl

-- A save of an order after writes of the stock.
then_saved :
    (row : Order) (s u t : Db)
    → u ≡ record s { stock = u.stock }
    → OutboxOnly (record u { orders = save (λ o. o.id) row u.orders }) t
    → OrdersAre (save (λ o. o.id) row s.orders) s t
then_saved row s u t only out =
    out
    ∙ ap (λ (d : Db). record d { orders = save (λ o. o.id) row d.orders; outbox = t.outbox }) only
    ∙ ap
        (λ (k : Stock). record s {
          stock = k;
          orders = save (λ o. o.id) row s.orders;
          outbox = t.outbox;
        })
        (sym (ap (λ (d : Db). d.stock) out))

-- The orders after a confirmation of `old`.
abbrev pub confirmed_orders : Order → ℕ → Db → List Order
confirmed_orders old now s = save (λ o. o.id) (in_status old OrderStatus.confirmed now) s.orders

abbrev pub ConfirmFrame : ℕ → ℕ → Db → Order → Db → Type 0
ConfirmFrame order_id now s order t =
    (old : Order) × (find_order order_id s ≡ some old)
    × ((t ≡ s)
        ⊎ ((old.status ≡ OrderStatus.pending_payment) × OrdersAre (confirmed_orders old now s) s t))

pub confirm_order-frame :
    (order_id now : ℕ) (s : Db)
    → Ends
        (ConfirmFrame order_id now s)
        (λ _ t. t ≡ s)
        (confirm_order_after_verified_payment order_id now s)
unfolding confirm_order_after_verified_payment
confirm_order-frame order_id now s = Ends-atomic _ s (
    then_read (λ o. find_order order_id s ≡ some o) _ _ s (locked_order_by_id-reads order_id s)
      (λ _. refl)
      λ old found.
        Ends-branch _ _ _ s (λ _. Ends-pure _ s (old, found, inl refl))
          λ _.
            then_raise_if _ _ _ s (λ _. refl)
              λ pending. then_gets _ _ s (
                then_raise_if _ _ _ s (λ _. refl)
                  λ _.
                    Ends-bind _ _ _ s
                      (Ends-mono _ _ _ _ _ (λ _ _ h. h) (λ _ _ _. refl)
                        (consume_lines-frame now (order_lines_for_transition old s) s))
                      λ _ u only.
                        Ends-mono _ _ _ _ _
                          (λ order t (_, out). (
                            old,
                            found,
                            inr (
                              same_status→≡ old.status OrderStatus.pending_payment (ground arith),
                              then_saved (in_status old OrderStatus.confirmed now) s u t only out,
                            ),
                          ))
                          (λ _ _ _. refl) (set_status-saves old OrderStatus.confirmed now u)))

pub attempts-ConfirmFrame :
    (order_id now : ℕ) (s : Db) (order : Order) (t : Db)
    → ConfirmFrame order_id now s order t
    → t.attempts ≡ s.attempts
attempts-ConfirmFrame order_id now s order t (old, found, inl same) =
    ap (λ (d : Db). d.attempts) same
attempts-ConfirmFrame order_id now s order t (old, found, inr (was, is)) =
    ap (λ (d : Db). d.attempts) is
