-- ===== src/Carts/Merge.antt =====
-- `merge_browser_cart` of apps/cart/services.py. A dictionary is a list of keys and values in the
-- order of insertion; `sorted(..., key=str)` orders UUIDs as it orders their numbers.
use visio_backend.Prelude.{
  ℕ, ◌+◌, suc, Bool, true, false, ◌||◌, Option, none, some, List, [], ◌∷◌, map, ◌==◌, if◌then◌else◌,
  ltb, leb, min, max, ℤ, first, order_by, Action, pure, gets, atomic, branch, raise_if, ◌>>=◌, ◌>>◌,
  value_error,
}
use visio_backend.Database.{Db}
use visio_backend.Database.Accounts.{User}
use visio_backend.Database.Carts.{Cart, CartLine}
use visio_backend.Carts.Services.{
  cart_max_quantity, validate_quantity, find_purchasable, get_or_create_active_cart, locked_cart,
  touch_cart, is_at, save_quantity, create_line, new_line,
}

-- MAX_IMPORT_LINES
abbrev pub max_import_lines : ℕ
max_import_lines = 100

pub record BrowserCartLine : Type 0 where
  pub variant_id : ℕ
  pub quantity : ℤ

abbrev pub length : {A : Type 0} → List A → ℕ
length [] = 0
length (x ∷ xs) = suc (length xs)

-- `deduplicated.get(key, 0)`
abbrev pub get : ℕ → List (ℕ × ℕ) → ℕ
get key [] = 0
get key ((k, n) ∷ d) = if k == key then n else get key d

-- `deduplicated[key] = value`
abbrev pub put : ℕ → ℕ → List (ℕ × ℕ) → List (ℕ × ℕ)
put key value [] = (key, value) ∷ []
put key value ((k, n) ∷ d) =
    let rest = put key value d in if k == key then (k, value) ∷ d else (k, n) ∷ rest

unfoldable pub deduplicate : List BrowserCartLine → List (ℕ × ℕ) → Action Db (List (ℕ × ℕ))
deduplicate [] deduplicated = pure deduplicated
deduplicate (line ∷ lines) deduplicated = do
  quantity ← validate_quantity line.quantity
  deduplicate lines (
      put line.variant_id (min cart_max_quantity (get line.variant_id deduplicated + quantity))
        deduplicated)

abbrev pub keys : List (ℕ × ℕ) → List ℕ
keys d = map (λ e. e.0) d

-- `sorted(d, key=str)`
abbrev pub sorted : List (ℕ × ℕ) → List ℕ
sorted d = order_by leb (keys d)

abbrev pub is_sold : Db → ℕ → Bool
is_sold db variant_id = elim (find_purchasable variant_id db) [ none ↦ false | some _ ↦ true ]

-- the loop over the sorted keys: the accepted quantities, and the keys of the issues
abbrev pub accept : Db → List ℕ → List (ℕ × ℕ) → List (ℕ × ℕ) → List (ℕ × ℕ)
accept db [] deduplicated accepted = accepted
accept db (v ∷ vs) deduplicated accepted =
    if is_sold db v
    then accept db vs deduplicated (put v (get v deduplicated) accepted)
    else accept db vs deduplicated accepted

abbrev pub import_issues : Db → List ℕ → List ℕ
import_issues db [] = []
import_issues db (v ∷ vs) =
    let rest = import_issues db vs in if is_sold db v then rest else v ∷ rest

-- one turn of the second loop, and whether it sets `changed`
unfoldable pub merge_line : Option CartLine → ℕ → Cart → ℕ → ℕ → ℕ → Action Db Bool
merge_line none uuid4 cart variant_id imported now =
    create_line (new_line uuid4 cart variant_id imported now) >> pure true
merge_line (some line) uuid4 cart variant_id imported now =
    branch (max line.quantity imported == line.quantity) (pure false)
      (save_quantity line (max line.quantity imported) now >> pure true)

unfoldable pub merge_lines : (ℕ → ℕ) → ℕ → Cart → List ℕ → List (ℕ × ℕ) → ℕ → Action Db Bool
merge_lines uuid4 i cart [] accepted now = pure false
merge_lines uuid4 i cart (v ∷ vs) accepted now = do
  line ← gets (λ db. first (is_at cart.id v) db.cart_lines)
  here ← merge_line line (uuid4 i) cart v (get v accepted) now
  rest ← merge_lines uuid4 (suc i) cart vs accepted now
  pure (here || rest)

-- The key of a new cart is `uuid4 0`, that of a line for the `i`-th accepted variant `uuid4 (i + 1)`.
unfoldable pub merge_browser_cart :
    (ℕ → ℕ) → User → List BrowserCartLine → ℕ → Action Db (Cart × List ℕ)
merge_browser_cart uuid4 user raw_lines now = do
  raise_if (ltb max_import_lines (length raw_lines)) value_error
  deduplicated ← deduplicate raw_lines []
  accepted ← gets (λ db. accept db (sorted deduplicated) deduplicated [])
  issues ← gets (λ db. import_issues db (sorted deduplicated))
  cart ← get_or_create_active_cart (uuid4 0) user now
  atomic do
    locked ← locked_cart cart
    changed ← merge_lines uuid4 1 locked (sorted accepted) accepted now
    left ← branch changed (touch_cart locked now) (pure locked)
    pure (left, issues)
