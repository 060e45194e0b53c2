-- ===== src/Carts/Clamp.antt =====
-- `validate_and_clamp_cart` of apps/cart/services.py.
use visio_backend.Prelude.{
  ℕ, Bool, true, false, not, ◌||◌, Option, none, some, List, [], ◌∷◌, ◌++◌, ◌==◌, if◌then◌else◌,
  ltb, leb, min, is_empty, rows, Action, pure, gets, atomic, branch, ◌>>=◌, ◌>>◌,
}
use visio_backend.Commerce.Models.{Variant, Stock, is_published, find_variant}
use visio_backend.Commerce.Projections.{variant_availability_payload}
use visio_backend.Database.{Db}
use visio_backend.Database.Accounts.{User}
use visio_backend.Database.Carts.{Cart, CartLine}
use visio_backend.Carts.Services.{
  cart_max_quantity, get_or_create_active_cart, locked_cart, touch_cart, save_quantity,
}

-- the tests of `availability`, and the quantity that a line is given if it has to change
abbrev pub clamp_by : Bool → Option ℕ → CartLine → Option ℕ
clamp_by false max_quantity line = none
clamp_by true none line = none
clamp_by true (some maximum) line =
    if ltb maximum 1 || leb line.quantity maximum
    then none
    else some (min maximum cart_max_quantity)

-- A line is read with its variant, which a foreign key provides.
abbrev pub clamp_variant : Option Variant → ℕ → CartLine → Stock → Option ℕ
clamp_variant none now line s = none
clamp_variant (some variant) now line s =
    if not variant.is_active || not (is_published variant.product.status)
    then none
    else (let availability = variant_availability_payload variant now s in
        clamp_by availability.authoritative availability.max_quantity line)

abbrev pub clamp_of : ℕ → CartLine → Stock → Option ℕ
clamp_of now line s = clamp_variant (find_variant line.variant_id s) now line s

-- one turn of the loop: the adjustment it adds
unfoldable pub clamp_line : Option ℕ → CartLine → ℕ → Action Db (List (ℕ × ℕ))
clamp_line none line now = pure []
clamp_line (some quantity) line now =
    save_quantity line quantity now >> pure ((line.variant_id, quantity) ∷ [])

unfoldable pub clamp_lines : List CartLine → ℕ → Action Db (List (ℕ × ℕ))
clamp_lines [] now = pure []
clamp_lines (line ∷ lines) now = do
  quantity ← gets (λ db. clamp_of now line db.stock)
  here ← clamp_line quantity line now
  rest ← clamp_lines lines now
  pure (here ++ rest)

-- `changed` is set with each adjustment.
unfoldable pub validate_and_clamp_cart : ℕ → User → ℕ → Action Db (Cart × List (ℕ × ℕ))
validate_and_clamp_cart uuid4 user now = do
  cart ← get_or_create_active_cart uuid4 user now
  atomic do
    locked ← locked_cart cart
    lines ← gets (λ db. rows (λ l. l.cart_id == locked.id) db.cart_lines)
    adjusted ← clamp_lines lines now
    left ← branch (is_empty adjusted) (pure locked) (touch_cart locked now)
    pure (left, adjusted)
