-- ===== src/Carts/Tidy.antt =====
-- The well-formedness of the cart tables, and that the writes of apps/cart/services.py keep it.
use visio_backend.Prelude.{
  ℕ, ◌≤◌, ◌≡◌, refl, Bool, true, Option, none, some, List, ◌==◌, if◌then◌else◌, arith, first, rows,
  update, create, All, All-mono, All-update, All-create, All-rows, IsKeyed, IsDistinct,
  update-IsDistinct, create-IsDistinct, rows-IsDistinct, first-none-All, first-update, first-create,
}
use visio_backend.Database.Carts.{Cart, CartLine}
use visio_backend.Checkout.Sessions.{is_there}
use visio_backend.Carts.Services.{
  cart_max_quantity, find_cart, touched, is_at, requantified, requantify,
}

-- `CartLine`'s constraint `cart_line_variant_unique`
abbrev pub same_place : CartLine → CartLine → Bool
same_place l m = is_at l.cart_id l.variant_id m

abbrev pub IsBounded : CartLine → Type 0
IsBounded l = (1 ≤ l.quantity) × (l.quantity ≤ cart_max_quantity)

abbrev pub IsLinked : List Cart → CartLine → Type 0
IsLinked carts l = is_there (find_cart l.cart_id carts) ≡ true

-- Keys are unique, a cart has one line for a variant, each quantity is from 1 to 99, and each line is
-- of a cart that is there.
pub record IsTidy (carts : List Cart) (lines : List CartLine) : Type 0 where
  pub carts_keyed : IsKeyed (λ c. c.id) carts
  pub lines_keyed : IsKeyed (λ l. l.id) lines
  pub apart : IsDistinct same_place lines
  pub bounded : All IsBounded lines
  pub linked : All (IsLinked carts) lines

module _ {carts : List Cart} {lines : List CartLine} (h : IsTidy carts lines) where
  pub requantify-IsTidy :
      (line_id q now : ℕ)
      → 1 ≤ q
      → q ≤ cart_max_quantity
      → IsTidy carts (requantify line_id q now lines)
  requantify-IsTidy line_id q now low high = record {
    carts_keyed = h.carts_keyed;
    lines_keyed =
        update-IsDistinct _ (λ l. l.id == line_id) (requantified q now) lines (λ x y. ground arith)
          h.lines_keyed;
    apart =
        update-IsDistinct same_place (λ l. l.id == line_id) (requantified q now) lines
          (λ x y. ground arith) h.apart;
    bounded =
        All-update IsBounded IsBounded (λ l. l.id == line_id) (requantified q now) lines
          (λ x _ _. (low, high)) (λ x k _. k) h.bounded;
    linked =
        All-update (IsLinked carts) (IsLinked carts) (λ l. l.id == line_id) (requantified q now)
          lines (λ x k _. k) (λ x k _. k) h.linked;
  }

  pub create_line-IsTidy :
      (row : CartLine)
      → first (λ l. l.id == row.id) lines ≡ none
      → first (is_at row.cart_id row.variant_id) lines ≡ none
      → IsBounded row
      → IsLinked carts row
      → IsTidy carts (create row lines)
  create_line-IsTidy row fresh free bound link = record {
    carts_keyed = h.carts_keyed;
    lines_keyed =
        create-IsDistinct _ row lines
          (All-mono _ _ lines (λ x e. ground arith) (first-none-All _ lines fresh)) h.lines_keyed;
    apart =
        create-IsDistinct same_place row lines
          (All-mono _ _ lines (λ x e. ground arith) (first-none-All _ lines free)) h.apart;
    bounded = All-create IsBounded row lines h.bounded bound;
    linked = All-create (IsLinked carts) row lines h.linked link;
  }

  pub rows-IsTidy : (p : CartLine → Bool) → IsTidy carts (rows p lines)
  rows-IsTidy p = record {
    carts_keyed = h.carts_keyed;
    lines_keyed = rows-IsDistinct _ p lines h.lines_keyed;
    apart = rows-IsDistinct same_place p lines h.apart;
    bounded = All-rows IsBounded p lines h.bounded;
    linked = All-rows (IsLinked carts) p lines h.linked;
  }

  pub touch-IsTidy :
      (cart_id now : ℕ) → IsTidy (update (λ c. c.id == cart_id) (touched now) carts) lines
  touch-IsTidy cart_id now = record {
    carts_keyed =
        update-IsDistinct _ (λ c. c.id == cart_id) (touched now) carts (λ x y. ground arith)
          h.carts_keyed;
    lines_keyed = h.lines_keyed;
    apart = h.apart;
    bounded = h.bounded;
    linked = All-mono _ _ lines (λ l k. still_there l.cart_id k) h.linked;
  }
    where
      still_there :
          (i : ℕ)
          → is_there (find_cart i carts) ≡ true
          → is_there (find_cart i (update (λ c. c.id == cart_id) (touched now) carts)) ≡ true
      still_there i k =
          rw
            (first-update (λ (c : Cart). c.id == i) (λ c. c.id == cart_id) (touched now) carts
              (λ c. refl))
            (of_found (find_cart i carts) k)
        where
          of_found :
              (o : Option Cart)
              → is_there o ≡ true
              → is_there (elim o [
                | none ↦ none
                | some c ↦ some (if c.id == cart_id then touched now c else c)
              ])
                ≡ true
          of_found none k = k
          of_found (some c) k = refl

  pub create_cart-IsTidy :
      (row : Cart) → find_cart row.id carts ≡ none → IsTidy (create row carts) lines
  create_cart-IsTidy row fresh = record {
    carts_keyed =
        create-IsDistinct _ row carts
          (All-mono _ _ carts (λ x e. ground arith) (first-none-All _ carts fresh)) h.carts_keyed;
    lines_keyed = h.lines_keyed;
    apart = h.apart;
    bounded = h.bounded;
    linked = All-mono _ _ lines (λ l k. still_there l.cart_id k) h.linked;
  }
    where
      still_there :
          (i : ℕ)
          → is_there (find_cart i carts) ≡ true
          → is_there (find_cart i (create row carts)) ≡ true
      still_there i k =
          rw (first-create (λ (c : Cart). c.id == i) row carts) (of_found (find_cart i carts) k)
        where
          of_found :
              (o : Option Cart)
              → is_there o ≡ true
              → is_there
                  (elim o [ none ↦ (if row.id == i then some row else none) | some c ↦ some c ])
                ≡ true
          of_found none k = absurd (cc)
          of_found (some c) k = refl
