-- ===== src/Database/Checkout.antt =====
-- The rows of apps/checkout/models.py. Amounts are whole tomans, which the columns keep at zero or
-- above.
use visio_backend.Prelude.{ℕ, Text, Bool, Option}

pub record ShippingZone : Type 0 where
  pub id : ℕ
  pub code : Text
  pub country_code : Text
  pub province : Text
  pub city : Text
  pub is_active : Bool

pub record ShippingMethod : Type 0 where
  pub id : ℕ
  pub zone_id : ℕ
  pub code : Text
  pub name : Text
  pub flat_rate_toman : ℕ
  pub free_over_toman : Option ℕ
  pub delivery_min_days : Option ℕ
  pub delivery_max_days : Option ℕ
  pub sort_order : ℕ
  pub is_active : Bool

pub record TaxPolicy : Type 0 where
  pub id : ℕ
  pub country_code : Text
  pub rate_bps : ℕ
  pub applies_to_shipping : Bool
  pub is_active : Bool

-- the dictionary of `address_snapshot`
pub record AddressSnapshot : Type 0 where
  pub id : ℕ
  pub recipient_name : Text
  pub recipient_phone : Text
  pub country_code : Text
  pub province : Text
  pub city : Text
  pub postal_code : Text
  pub address_line1 : Text
  pub address_line2 : Text

-- the dictionary of `shipping_snapshot`
pub record ShippingSnapshot : Type 0 where
  pub id : ℕ
  pub code : Text
  pub name : Text
  pub zone_code : Text
  pub delivery_min_days : Option ℕ
  pub delivery_max_days : Option ℕ

pub data SessionStatus : Type 0 where
  active ready cancelled expired completed : SessionStatus

pub record CheckoutSession : Type 0 where
  pub id : ℕ
  pub user_id : ℕ
  pub cart_id : ℕ
  pub address_id : ℕ
  pub shipping_method_id : ℕ
  pub idempotency_key : ℕ
  pub finalization_key : Option ℕ
  pub status : SessionStatus
  pub cart_revision : ℕ
  pub subtotal_toman : ℕ
  pub discount_toman : ℕ
  pub shipping_toman : ℕ
  pub tax_toman : ℕ
  pub payable_toman : ℕ
  pub tax_rate_bps : ℕ
  pub address_snapshot : AddressSnapshot
  pub shipping_snapshot : ShippingSnapshot
  pub expires_at : ℕ
  pub finalized_at : Option ℕ
  pub created_at : ℕ
  pub updated_at : ℕ

pub record CheckoutLine : Type 0 where
  pub id : ℕ
  pub checkout_id : ℕ
  pub variant_id : ℕ
  pub reservation_id : ℕ
  pub quantity : ℕ
  pub unit_price_toman : ℕ
  pub line_total_toman : ℕ
