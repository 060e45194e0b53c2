-- ===== src/Checkout/Rounding.antt =====
-- The amounts of a quote add up, and the tax is rounded half up.
use visio_backend.Prelude.{ℕ, ◌+◌, ◌*◌, ◌≤◌, ◌<◌, ◌≡◌, refl, arith, true, false, none, some}
use visio_backend.Database.Checkout.{ShippingMethod, TaxPolicy}
use visio_backend.Checkout.Pricing.{ShippingQuote, shipping_amount, quantize_half_up, quote}

-- `q` is the whole number nearest to `n / 10000`, the upper one of two.
pub record IsHalfUp (n q : ℕ) : Type 0 where
  pub lower : q * 20_000 ≤ 2 * n + 10_000
  pub upper : 2 * n + 10_000 < q * 20_000 + 20_000

quantize_half_up-IsHalfUp : (n : ℕ) → IsHalfUp n (quantize_half_up n)
unfolding quantize_half_up
quantize_half_up-IsHalfUp n = record { lower = ground arith; upper = ground arith }

-- What a quote of a subtotal by a method and a tax policy has to be.
pub record IsPriced (method : ShippingMethod) (subtotal : ℕ) (policy : TaxPolicy)
    (q : ShippingQuote) : Type 0 where
  pub subtotal_kept : q.subtotal_toman ≡ subtotal
  pub no_discount : q.discount_toman ≡ 0
  pub always_flat : method.free_over_toman ≡ none → q.shipping_toman ≡ method.flat_rate_toman
  pub flat_below :
      (threshold : ℕ)
      → method.free_over_toman ≡ some threshold
      → subtotal < threshold
      → q.shipping_toman ≡ method.flat_rate_toman
  pub free_from :
      (threshold : ℕ)
      → method.free_over_toman ≡ some threshold
      → threshold ≤ subtotal
      → q.shipping_toman ≡ 0
  pub goods_taxed :
      policy.applies_to_shipping ≡ false → IsHalfUp (subtotal * policy.rate_bps) q.tax_toman
  pub all_taxed :
      policy.applies_to_shipping ≡ true
      → IsHalfUp ((subtotal + q.shipping_toman) * policy.rate_bps) q.tax_toman
  pub rate : q.tax_rate_bps ≡ policy.rate_bps
  pub payable :
      q.payable_toman + q.discount_toman ≡ q.subtotal_toman + q.shipping_toman + q.tax_toman

shipping_amount-flat :
    (method : ShippingMethod) (subtotal : ℕ)
    → method.free_over_toman ≡ none
    → shipping_amount method subtotal ≡ method.flat_rate_toman
shipping_amount-flat method subtotal h = rw h refl

shipping_amount-below :
    (method : ShippingMethod) (subtotal threshold : ℕ)
    → method.free_over_toman ≡ some threshold
    → subtotal < threshold
    → shipping_amount method subtotal ≡ method.flat_rate_toman
shipping_amount-below method subtotal threshold h low = rw h (ground (arith, low))

shipping_amount-free :
    (method : ShippingMethod) (subtotal threshold : ℕ)
    → method.free_over_toman ≡ some threshold
    → threshold ≤ subtotal
    → shipping_amount method subtotal ≡ 0
shipping_amount-free method subtotal threshold h high = rw h (ground (arith, high))

-- A quote has the subtotal, no discount and the policy's rate. Its shipping is the flat rate of the
-- method where the method has no threshold or the subtotal is below it, and 0 from the threshold
-- on. Its tax is the nearest whole toman (the upper of two) of that rate of the subtotal, or of the
-- subtotal and the shipping where the policy applies to shipping, and its payable amount is the sum
-- of its components.
pub quote-IsPriced :
    (method : ShippingMethod) (subtotal : ℕ) (policy : TaxPolicy)
    → IsPriced method subtotal policy (quote method subtotal policy)
unfolding quote
quote-IsPriced method subtotal policy = record {
  subtotal_kept = refl;
  no_discount = refl;
  always_flat = shipping_amount-flat method subtotal;
  flat_below = shipping_amount-below method subtotal;
  free_from = shipping_amount-free method subtotal;
  goods_taxed = λ h. rw h (quantize_half_up-IsHalfUp _);
  all_taxed = λ h. rw h (quantize_half_up-IsHalfUp _);
  rate = refl;
  payable = omega arith;
}
