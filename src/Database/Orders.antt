-- ===== src/Database/Orders.antt =====
-- The rows of apps/orders/models.py.
use visio_backend.Prelude.{ℕ, Text, List}
use visio_backend.Database.Checkout.{AddressSnapshot, ShippingSnapshot}

pub data OrderStatus : Type 0 where
  pending_payment confirmed processing shipped delivered cancelled expired : OrderStatus

pub OrderStatus-discrete : Discrete OrderStatus
OrderStatus-discrete = hlevel

-- the dictionary of `customer_snapshot`
pub record CustomerSnapshot : Type 0 where
  pub user_id : ℕ
  pub email : Text
  pub username : Text

pub record Order : Type 0 where
  pub id : ℕ
  pub public_id : ℕ
  pub user_id : ℕ
  pub checkout_id : ℕ
  pub idempotency_key : ℕ
  pub status : OrderStatus
  pub status_changed_at : ℕ
  pub customer_snapshot : CustomerSnapshot
  pub address_snapshot : AddressSnapshot
  pub shipping_snapshot : ShippingSnapshot
  pub subtotal_toman : ℕ
  pub discount_toman : ℕ
  pub shipping_toman : ℕ
  pub tax_toman : ℕ
  pub payable_toman : ℕ
  pub tax_rate_bps : ℕ
  pub updated_at : ℕ

-- one entry of `option_snapshot`
pub record OptionSnapshot : Type 0 where
  pub key : ℕ
  pub value : ℕ
  pub label : ℕ
  pub option_label : ℕ

pub record OrderLine : Type 0 where
  pub id : ℕ
  pub order_id : ℕ
  pub reservation_id : ℕ
  pub source_product_id : ℕ
  pub source_product_slug : ℕ
  pub source_product_name : ℕ
  pub source_variant_id : ℕ
  pub source_variant_sku : ℕ
  pub option_snapshot : List OptionSnapshot
  pub quantity : ℕ
  pub unit_price_toman : ℕ
  pub line_total_toman : ℕ
