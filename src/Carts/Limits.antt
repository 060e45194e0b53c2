-- ===== src/Carts/Limits.antt =====
-- How much can be had of a variant, for `validate_and_clamp_cart` of apps/cart/services.py, and how a
-- clamp of one line stands to it.
use visio_backend.Prelude.{
  ℕ, ◌≤◌, ◌<◌, ◌≡◌, inl, inr, refl, Bool, true, false, not, ◌&&◌, ◌||◌, Option, none, some,
  if◌then◌else◌, arith, min, ltb, leb, Bool-cases,
}
use visio_backend.Commerce.Models.{Variant, Stock, is_published, find_variant}
use visio_backend.Commerce.Projections.{variant_availability_payload}
use visio_backend.Database.Carts.{CartLine}
use visio_backend.Carts.Services.{cart_max_quantity}
use visio_backend.Carts.Clamp.{clamp_by, clamp_variant}
use visio_backend.Carts.Tidy.{IsBounded}

-- The most that can be had of a variant now: what the stock has authoritatively and above zero of a
-- variant that is for sale.
abbrev pub limit_by : Bool → Option ℕ → Option ℕ
limit_by false max_quantity = none
limit_by true none = none
limit_by true (some maximum) = if ltb maximum 1 then none else some maximum

abbrev pub limit_of : Option Variant → ℕ → Stock → Option ℕ
limit_of none now s = none
limit_of (some variant) now s =
    if variant.is_active && is_published variant.product.status
    then (let availability = variant_availability_payload variant now s in
        limit_by availability.authoritative availability.max_quantity)
    else none

abbrev pub limit : ℕ → ℕ → Stock → Option ℕ
limit variant_id now s = limit_of (find_variant variant_id s) now s

abbrev pub capped : Option ℕ → ℕ → ℕ
capped none n = n
capped (some m) n = min m n

-- the quantity that a clamp leaves
abbrev pub clamped : ℕ → Stock → ℕ → ℕ → ℕ
clamped now s v n = capped (limit v now s) n

-- A clamp that changes a line caps it, and makes it less; one that does not leaves it capped.
abbrev pub Caps : Option ℕ → ℕ → Option ℕ → Type 0
Caps m n none = capped m n ≡ n
Caps m n (some q) = (capped m n ≡ q) × (1 ≤ q) × (q ≤ cart_max_quantity) × (q < n)

clamp_by-Caps :
    (b : Bool) (m : Option ℕ) (l : CartLine)
    → IsBounded l
    → Caps (limit_by b m) l.quantity (clamp_by b m l)
clamp_by-Caps false m l h = refl
clamp_by-Caps true none l h = refl
clamp_by-Caps true (some m) l (low, high) = elim (Bool-cases (ltb m 1)) [
  | inl t ↦ rw t refl
  | inr f ↦ elim (Bool-cases (leb l.quantity m)) [
    | inl t ↦ rw (f, t) (ground arith)
    | inr g ↦ rw (f, g) (ground arith, ground arith, ground arith, ground arith)
  ]
]

sold-Caps :
    (is_active is_public b : Bool) (m : Option ℕ) (l : CartLine)
    → IsBounded l
    → Caps
        (if is_active && is_public then limit_by b m else none)
        l.quantity
        (if not is_active || not is_public then none else clamp_by b m l)
sold-Caps false p b m l h = refl
sold-Caps true false b m l h = refl
sold-Caps true true b m l h = clamp_by-Caps b m l h

pub clamp_variant-Caps :
    (o : Option Variant) (now : ℕ) (l : CartLine) (s : Stock)
    → IsBounded l
    → Caps (limit_of o now s) l.quantity (clamp_variant o now l s)
clamp_variant-Caps none now l s h = refl
clamp_variant-Caps (some v) now l s h =
    let availability = variant_availability_payload v now s in
    sold-Caps v.is_active (is_published v.product.status) availability.authoritative
      availability.max_quantity l h
