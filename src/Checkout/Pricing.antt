-- ===== src/Checkout/Pricing.antt =====
-- `_shipping_amount`, `_tax_amount` and `_quote` of apps/checkout/services.py.
use visio_backend.Prelude.{ℕ, ◌+◌, ◌-◌, ◌*◌, ◌/◌, ◌%◌, Option, none, some, leb, if◌then◌else◌}
use visio_backend.Database.Checkout.{ShippingMethod, TaxPolicy}

pub record ShippingQuote : Type 0 where
  pub method : ShippingMethod
  pub subtotal_toman : ℕ
  pub discount_toman : ℕ
  pub shipping_toman : ℕ
  pub tax_toman : ℕ
  pub payable_toman : ℕ
  pub tax_rate_bps : ℕ

abbrev flat_unless_free : Option ℕ → ℕ → ℕ → ℕ
flat_unless_free none flat_rate subtotal_toman = flat_rate
flat_unless_free (some free_over) flat_rate subtotal_toman =
    if leb free_over subtotal_toman then 0 else flat_rate

abbrev pub shipping_amount : ShippingMethod → ℕ → ℕ
shipping_amount method subtotal_toman =
    flat_unless_free method.free_over_toman method.flat_rate_toman subtotal_toman

-- `(Decimal(n) / Decimal(10_000)).quantize(Decimal("1"), rounding=ROUND_HALF_UP)`
unfoldable pub quantize_half_up : ℕ → ℕ
quantize_half_up n = if leb 10_000 (2 * (n % 10_000)) then n / 10_000 + 1 else n / 10_000

abbrev pub taxable : ℕ → ℕ → TaxPolicy → ℕ
taxable subtotal_toman shipping_toman policy =
    if policy.applies_to_shipping then subtotal_toman + shipping_toman else subtotal_toman

abbrev pub tax_amount : ℕ → ℕ → TaxPolicy → ℕ
tax_amount subtotal_toman shipping_toman policy =
    quantize_half_up (taxable subtotal_toman shipping_toman policy * policy.rate_bps)

unfoldable pub quote : ShippingMethod → ℕ → TaxPolicy → ShippingQuote
quote method subtotal_toman policy =
    let shipping_toman = shipping_amount method subtotal_toman in
    let tax_toman = tax_amount subtotal_toman shipping_toman policy in
    record {
      method = method;
      subtotal_toman = subtotal_toman;
      discount_toman = 0;
      shipping_toman = shipping_toman;
      tax_toman = tax_toman;
      payable_toman = subtotal_toman - 0 + shipping_toman + tax_toman;
      tax_rate_bps = policy.rate_bps;
    }
