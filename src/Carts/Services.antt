-- ===== src/Carts/Services.antt =====
-- `validate_quantity` to `clear_cart` of apps/cart/services.py. `uuid4 i` is the `i`-th primary key
-- that a call draws.
use visio_backend.Prelude.{
  ℕ, ◌+◌, Bool, true, false, not, ◌&&◌, ◌||◌, Option, none, some, List, ◌==◌, min, ℤ, pos, pos_part,
  ltb_ℤ, is_empty, first, rows, update, create, Error, Action, pure, gets, or_raise, atomic, branch,
  catch, modify, raise_if, ◌>>=◌, ◌>>◌, value_error, does_not_exist, integrity_error,
  cart_not_found, cart_line_not_found, variant_not_purchasable,
}
use visio_backend.Commerce.Models.{Variant, is_published}
use visio_backend.Database.{Db}
use visio_backend.Database.Accounts.{User}
use visio_backend.Database.Carts.{CartStatus, Cart, CartLine}
use visio_backend.Checkout.Sessions.{is_open, is_there}

-- CART_MAX_QUANTITY
abbrev pub cart_max_quantity : ℕ
cart_max_quantity = 99

unfoldable pub validate_quantity : ℤ → Action Db ℕ
validate_quantity quantity = do
  raise_if (ltb_ℤ quantity (pos 1) || ltb_ℤ (pos cart_max_quantity) quantity) value_error
  pure (pos_part quantity)

-- the query of `_purchasable_variant`
abbrev pub is_purchasable : ℕ → Variant → Bool
is_purchasable variant_id v = v.id == variant_id && (v.is_active && is_published v.product.status)

abbrev pub find_purchasable : ℕ → Db → Option Variant
find_purchasable variant_id db = first (is_purchasable variant_id) db.stock.variants

unfoldable pub purchasable_variant : ℕ → Action Db Variant
purchasable_variant variant_id = do
  or_raise (← gets (find_purchasable variant_id)) variant_not_purchasable

-- `Cart.objects.filter(user=user, status=ACTIVE).first()`
abbrev pub cart_of : ℕ → List Cart → Option Cart
cart_of user_id carts = first (λ c. c.user_id == user_id && is_open c.status) carts

abbrev pub get_active_cart : User → Db → Option Cart
get_active_cart user db = cart_of user.id db.carts

abbrev pub find_cart : ℕ → List Cart → Option Cart
find_cart i carts = first (λ c. c.id == i) carts

-- `Cart.objects.create(...)`, with `cart_one_active_per_user`
unfoldable pub create_cart : Cart → Action Db Cart
create_cart row = do
  raise_if (is_there (← gets (λ db. cart_of row.user_id db.carts))) integrity_error
  modify (λ db. record db { carts = create row db.carts })
  pure row

abbrev pub is_integrity : Error → Bool
is_integrity integrity_error = true
is_integrity _ = false

abbrev pub new_cart : ℕ → User → ℕ → Cart
new_cart uuid4 user now = record {
  id = uuid4;
  user_id = user.id;
  status = CartStatus.active;
  revision = 1;
  updated_at = now;
}

-- `get_or_create_active_cart`, by what `get_active_cart` has found
unfoldable pub create_if_none : Option Cart → ℕ → User → ℕ → Action Db Cart
create_if_none (some cart) uuid4 user now = pure cart
create_if_none none uuid4 user now =
    catch is_integrity (atomic (create_cart (new_cart uuid4 user now)))
      (do or_raise (← gets (get_active_cart user)) does_not_exist)

unfoldable pub get_or_create_active_cart : ℕ → User → ℕ → Action Db Cart
get_or_create_active_cart uuid4 user now = do
  current ← gets (get_active_cart user)
  create_if_none current uuid4 user now

-- `Cart.objects.select_for_update().get(pk=cart.pk)`
unfoldable pub locked_cart : Cart → Action Db Cart
locked_cart cart = do or_raise (← gets (λ db. find_cart cart.id db.carts)) does_not_exist

abbrev pub touched : ℕ → Cart → Cart
touched now cart = record cart { revision = cart.revision + 1; updated_at = now }

unfoldable pub touch_cart : Cart → ℕ → Action Db Cart
touch_cart cart now = do
  modify (λ db. record db { carts = update (λ c. c.id == cart.id) (touched now) db.carts })
  or_raise (← gets (λ db. find_cart cart.id db.carts)) does_not_exist

-- the line of a cart with a variant
abbrev pub is_at : ℕ → ℕ → CartLine → Bool
is_at cart_id variant_id l = l.cart_id == cart_id && l.variant_id == variant_id

-- `line.save(update_fields=("quantity", "updated_at"))`
abbrev pub requantified : ℕ → ℕ → CartLine → CartLine
requantified quantity now l = record l { quantity = quantity; updated_at = now }

abbrev pub requantify : ℕ → ℕ → ℕ → List CartLine → List CartLine
requantify line_id quantity now lines =
    update (λ l. l.id == line_id) (requantified quantity now) lines

unfoldable pub save_quantity : CartLine → ℕ → ℕ → Action Db Unit
save_quantity line quantity now =
    modify (λ db. record db { cart_lines = requantify line.id quantity now db.cart_lines })

-- `CartLine.objects.create(...)`
unfoldable pub create_line : CartLine → Action Db Unit
create_line row = modify (λ db. record db { cart_lines = create row db.cart_lines })

abbrev pub new_line : ℕ → Cart → ℕ → ℕ → ℕ → CartLine
new_line uuid4 cart variant_id quantity now = record {
  id = uuid4;
  cart_id = cart.id;
  variant_id = variant_id;
  quantity = quantity;
  updated_at = now;
}

-- the two branches of `add_cart_line`
unfoldable pub add_to_line : Option CartLine → ℕ → Cart → ℕ → ℕ → ℕ → Action Db Unit
add_to_line none uuid4 cart variant_id quantity now =
    create_line (new_line uuid4 cart variant_id quantity now)
add_to_line (some line) uuid4 cart variant_id quantity now =
    save_quantity line (min cart_max_quantity (line.quantity + quantity)) now

unfoldable pub add_cart_line : (ℕ → ℕ) → User → ℕ → ℤ → ℕ → Action Db Cart
add_cart_line uuid4 user variant_id quantity now = do
  amount ← validate_quantity quantity
  variant ← purchasable_variant variant_id
  cart ← get_or_create_active_cart (uuid4 0) user now
  atomic do
    locked ← locked_cart cart
    line ← gets (λ db. first (is_at locked.id variant.id) db.cart_lines)
    add_to_line line (uuid4 1) locked variant.id amount now
    touch_cart locked now

unfoldable pub set_cart_line_quantity : User → ℕ → ℤ → ℕ → Action Db Cart
set_cart_line_quantity user variant_id quantity now = do
  amount ← validate_quantity quantity
  cart ← or_raise (← gets (get_active_cart user)) cart_not_found
  atomic do
    locked ← locked_cart cart
    line ←
        or_raise (← gets (λ db. first (is_at locked.id variant_id) db.cart_lines))
          cart_line_not_found
    save_quantity line amount now
    touch_cart locked now

unfoldable pub remove_cart_line : User → ℕ → ℕ → Action Db Cart
remove_cart_line user variant_id now = do
  cart ← or_raise (← gets (get_active_cart user)) cart_not_found
  atomic do
    locked ← locked_cart cart
    deleted ← gets (λ db. rows (is_at locked.id variant_id) db.cart_lines)
    modify (λ db. record db {
      cart_lines = rows (λ l. not (is_at locked.id variant_id l)) db.cart_lines;
    })
    raise_if (is_empty deleted) cart_line_not_found
    touch_cart locked now

unfoldable pub clear_cart : ℕ → User → ℕ → Action Db Cart
clear_cart uuid4 user now = do
  cart ← get_or_create_active_cart uuid4 user now
  atomic do
    locked ← locked_cart cart
    deleted ← gets (λ db. rows (λ l. l.cart_id == locked.id) db.cart_lines)
    modify (λ db. record db { cart_lines = rows (λ l. not (l.cart_id == locked.id)) db.cart_lines })
    branch (is_empty deleted) (pure locked) (touch_cart locked now)
