-- ===== src/Carts/Tests.antt =====
-- The theorems on the carts at a shop with one variant for sale and a customer who has two of it.
use visio_backend.Prelude.{
  ℕ, ◌+◌, ◌≤◌, ◌<◌, ◌≡◌, ◌⊎◌, refl, not, ◌&&◌, some, none, List, [], ◌∷◌, if◌then◌else◌, arith, min,
  ltb, pos, value_error, ◌>>=◌, Ends,
}
use visio_backend.Database.{Db}
use visio_backend.Database.Carts.{CartStatus}
use visio_backend.Database.Orders.{OrderStatus}
use visio_backend.Orders.Tests.{customer, shop}
use visio_backend.Carts.Services.{
  cart_max_quantity, validate_quantity, purchasable_variant, get_or_create_active_cart,
  create_if_none, locked_cart, add_to_line, save_quantity, touch_cart, add_cart_line,
  set_cart_line_quantity, remove_cart_line, clear_cart,
}
use visio_backend.Carts.Clamp.{validate_and_clamp_cart}
use visio_backend.Carts.Merge.{
  BrowserCartLine, max_import_lines, length, is_sold, merge_browser_cart,
}
use visio_backend.Carts.Contents.{contents}
use visio_backend.Carts.Effects.{IsTidyDb}
use visio_backend.Carts.Lines.{at_variant}
use visio_backend.Carts.Relining.{Refines, IsQuantity}
use visio_backend.Carts.Refinement.{
  AddRefused, SetRefused, LineRefused, add_cart_line-Refines, set_cart_line_quantity-Refines,
  remove_cart_line-Refines, clear_cart-Refines,
}
use visio_backend.Carts.Limits.{clamped}
use visio_backend.Carts.ClampLoop.{reported}
use visio_backend.Carts.Clamping.{validate_and_clamp_cart-Refines}
use visio_backend.Carts.Dicts.{elem, asked, HasNoQuantity}
use visio_backend.Carts.Merging.{FreshFrom, imported, merge_browser_cart-Refines}

abbrev filled : Db
filled = record (shop OrderStatus.pending_payment) {
  carts =
      record { id = 4; user_id = 7; status = CartStatus.active; revision = 3; updated_at = 90 }
      ∷ [];
  cart_lines = record { id = 5; cart_id = 4; variant_id = 10; quantity = 2; updated_at = 90 } ∷ [];
}

filled-IsTidyDb : IsTidyDb filled
filled-IsTidyDb = record {
  carts_keyed = (refl, tt);
  lines_keyed = (refl, tt);
  apart = (refl, tt);
  bounded = ((omega arith, omega arith), tt);
  linked = (refl, tt);
}

abbrev new_key : ℕ → ℕ
new_key i = 100 + i

filled-FreshFrom : FreshFrom new_key 1 filled
filled-FreshFrom j le = ground arith

add_cart_line-Refines_example :
    Ends
      (λ a t.
        (x : ℕ) × IsQuantity (pos 3) x
        × Refines 7 (at_variant 10 (λ n. min cart_max_quantity (n + x))) filled a t)
      (AddRefused 10 (pos 3) filled)
      (add_cart_line new_key customer 10 (pos 3) 200 filled)
add_cart_line-Refines_example =
    add_cart_line-Refines new_key customer 10 (pos 3) 200 filled filled-IsTidyDb refl refl

set_cart_line_quantity-Refines_example :
    Ends
      (λ a t.
        (x : ℕ) × IsQuantity (pos 9) x
        × (1 ≤ contents filled 7 10)
        × Refines 7 (at_variant 10 (λ _. x)) filled a t)
      (SetRefused customer 10 (pos 9) filled)
      (set_cart_line_quantity customer 10 (pos 9) 200 filled)
set_cart_line_quantity-Refines_example =
    set_cart_line_quantity-Refines customer 10 (pos 9) 200 filled filled-IsTidyDb

remove_cart_line-Refines_example :
    Ends
      (Refines 7 (at_variant 10 (λ _. 0)) filled)
      (λ e t. (t ≡ filled) × LineRefused customer 10 filled e)
      (remove_cart_line customer 10 200 filled)
remove_cart_line-Refines_example = remove_cart_line-Refines customer 10 200 filled filled-IsTidyDb

clear_cart-Refines_example :
    Ends (Refines 7 (λ _ _. 0) filled) (λ _ _. ⊥) (clear_cart 100 customer 200 filled)
clear_cart-Refines_example = clear_cart-Refines 100 customer 200 filled filled-IsTidyDb refl

validate_and_clamp_cart-Refines_example :
    Ends
      (λ r t.
        Refines 7 (clamped 200 filled.stock) filled r.0 t
        × ((v : ℕ)
            → reported v r.1 ≡ (
                if ltb (contents t 7 v) (contents filled 7 v)
                then some (contents t 7 v)
                else none)))
      (λ _ _. ⊥)
      (validate_and_clamp_cart 100 customer 200 filled)
validate_and_clamp_cart-Refines_example =
    validate_and_clamp_cart-Refines 100 customer 200 filled filled-IsTidyDb refl

abbrev browser : List BrowserCartLine
browser =
    record { variant_id = 10; quantity = pos 4 }
    ∷ record { variant_id = 11; quantity = pos 1 }
    ∷ record { variant_id = 10; quantity = pos 2 }
    ∷ []

merge_browser_cart-Refines_example :
    Ends
      (λ r t.
        Refines 7 (imported filled browser) filled r.0 t
        × ((v : ℕ) → elem v r.1 ≡ (asked v browser && not (is_sold filled v))))
      (λ e t.
        (t ≡ filled)
        × (e ≡ value_error)
        × ((max_import_lines < length browser) ⊎ HasNoQuantity browser))
      (merge_browser_cart new_key customer browser 200 filled)
merge_browser_cart-Refines_example =
    merge_browser_cart-Refines new_key customer browser 200 filled filled-IsTidyDb refl
      filled-FreshFrom λ i j e. omega (arith, e)

-- What the customer has of the variant after each operation.
abbrev left_of : {A : Type 0} → A × Db → ℕ
left_of (a, t) = contents t 7 10

add_run : left_of (add_cart_line new_key customer 10 (pos 3) 200 filled) ≡ 5
unfolding add_cart_line ◌>>=◌ validate_quantity purchasable_variant get_or_create_active_cart
    create_if_none locked_cart add_to_line save_quantity touch_cart
add_run = refl
