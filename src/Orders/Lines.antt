-- ===== src/Orders/Lines.antt =====
-- The lines that `create_order` copies from a checkout.
use mathlib.Core.List.{append-nil}
use visio_backend.Prelude.{
  ℕ, ◌+◌, ◌≡◌, refl, ◌∙◌, ap, ==→≡, ◌==◌, List, [], ◌∷◌, ◌++◌, sym, first-test, create, Ends,
  Ends-mono, Ends-pure, then_gets, then_or_raise, then_modify,
}
use visio_backend.Commerce.Models.{Variant}
use visio_backend.Database.{Db}
use visio_backend.Database.Checkout.{CheckoutLine}
use visio_backend.Database.Orders.{Order, OrderLine}
use visio_backend.Orders.Creation.{create_order_lines, line_of, option_snapshot_of}

-- The order's line has the variant, hold, quantity and prices of the checkout's.
pub record IsLineOf (order_id : ℕ) (line : CheckoutLine) (l : OrderLine) : Type 0 where
  pub order : l.order_id ≡ order_id
  pub hold : l.reservation_id ≡ line.reservation_id
  pub variant : l.source_variant_id ≡ line.variant_id
  pub quantity : l.quantity ≡ line.quantity
  pub price : l.unit_price_toman ≡ line.unit_price_toman
  pub total : l.line_total_toman ≡ line.line_total_toman

-- One line of the order for each of the checkout's, in their order.
pub data AreLinesOf (order_id : ℕ) : List CheckoutLine → List OrderLine → Type 0 where
  no_lines : AreLinesOf order_id [] []
  one_more :
      (line : CheckoutLine) (lines : List CheckoutLine) (l : OrderLine) (ls : List OrderLine)
      → IsLineOf order_id line l
      → AreLinesOf order_id lines ls
      → AreLinesOf order_id (line ∷ lines) (l ∷ ls)

-- The lines of an order that are stored after those that were there.
pub record LinesStored (order_id : ℕ) (lines : List CheckoutLine) (s t : Db) : Type 0 where
  pub added : List OrderLine
  pub stored : t.order_lines ≡ s.order_lines ++ added
  pub alike : AreLinesOf order_id lines added

create-append : {A : Type 0} (xs ys : List A) (x : A) → create x xs ++ ys ≡ xs ++ x ∷ ys
create-append [] ys x = refl
create-append (z ∷ zs) ys x = ap (λ l. z ∷ l) (create-append zs ys x)

-- The loop writes order lines only, those of the checkout's lines.
pub create_order_lines-LinesStored :
    (uuid4 : ℕ → ℕ) (order : Order) (i : ℕ) (lines : List CheckoutLine) (s : Db)
    → Ends
        (λ _ t. (t ≡ record s { order_lines = t.order_lines }) × LinesStored order.id lines s t)
        (λ _ _. Unit {0})
        (create_order_lines uuid4 order i lines s)
unfolding create_order_lines
create_order_lines-LinesStored uuid4 order i [] s =
    Ends-pure tt s (refl, record { added = []; stored = sym (append-nil _); alike = no_lines })
create_order_lines-LinesStored uuid4 order i (l ∷ ls) s = then_gets _ _ s (
    then_or_raise _ _ _ s (λ _. tt)
      λ variant found. then_gets _ _ s (
        then_modify _ _ s (
          Ends-mono _ _ _ _ _
            (λ _ t (only, rest). (
              only,
              record {
                added =
                    line_of (uuid4 i) order.id l variant (option_snapshot_of variant.id s)
                    ∷ rest.added;
                stored = rest.stored ∙ create-append s.order_lines rest.added _;
                alike =
                    one_more l ls _ rest.added
                      (record {
                        order = refl;
                        hold = refl;
                        variant = ==→≡ _ _ (
                            first-test (λ (v : Variant). v.id == l.variant_id) s.stock.variants
                              variant found);
                        quantity = refl;
                        price = refl;
                        total = refl;
                      })
                      rest.alike;
              },
            ))
            (λ _ _ h. h) (create_order_lines-LinesStored uuid4 order (i + 1) ls _))))
