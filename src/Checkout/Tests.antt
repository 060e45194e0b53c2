-- ===== src/Checkout/Tests.antt =====
-- The theorems on the checkout, and on the order made of one, at a shop with one zone, one method
-- and a cart of one line.
use visio_backend.Prelude.{
  ◌⊎◌, ◌+◌, ◌≡◌, refl, true, false, none, some, [], ◌∷◌, arith, Ends, text_eq,
}
use visio_backend.Commerce.Tests.{held-IsCovered}
use visio_backend.Database.{Db}
use visio_backend.Database.Accounts.{Address}
use visio_backend.Database.Carts.{CartStatus, Cart}
use visio_backend.Database.Checkout.{
  ShippingZone, ShippingMethod, TaxPolicy, SessionStatus, CheckoutSession,
}
use visio_backend.Database.Orders.{OrderStatus}
use visio_backend.Orders.Tests.{customer, shop}
use visio_backend.Checkout.Delivery.{Collation, address_snapshot, shipping_snapshot, resolve_zone}
use visio_backend.Checkout.Pricing.{quote}
use visio_backend.Checkout.Rounding.{IsPriced, quote-IsPriced}
use visio_backend.Checkout.Zones.{IsBest, resolve_zone-IsBest}
use visio_backend.Checkout.Sessions.{create_checkout, cancel_checkout}
use visio_backend.Checkout.Sessions.Finalization.{finalize_checkout}
use visio_backend.Checkout.Cover.{Covered, create_checkout-IsCovered, cancel_checkout-IsCovered}
use visio_backend.Orders.Creation.{create_order}
use visio_backend.Orders.Placing.{Answered, Placed}
use visio_backend.Orders.Placement.{create_order-Placed}
use visio_backend.Checkout.Finalize.{Finalized, finalize_checkout-Finalized, finalize_checkout-late}

abbrev plain : Collation
plain = record { casefold = λ t. t; iexact = text_eq; precedes = λ a b. false }

abbrev home : Address
home = record {
  id = 2;
  user_id = 7;
  recipient_name = [];
  recipient_phone = [];
  country_code = b'I' ∷ b'R' ∷ [];
  province = b'q' ∷ [];
  city = [];
  postal_code = [];
  address_line1 = [];
  address_line2 = [];
}

abbrev country : ShippingZone
country = record {
  id = 1;
  code = b'c' ∷ [];
  country_code = b'I' ∷ b'R' ∷ [];
  province = [];
  city = [];
  is_active = true;
}

abbrev post : ShippingMethod
post = record {
  id = 1;
  zone_id = 1;
  code = b'p' ∷ [];
  name = [];
  flat_rate_toman = 300;
  free_over_toman = some 5000;
  delivery_min_days = none;
  delivery_max_days = none;
  sort_order = 0;
  is_active = true;
}

abbrev vat : TaxPolicy
vat = record {
  id = 1;
  country_code = b'I' ∷ b'R' ∷ [];
  rate_bps = 900;
  applies_to_shipping = false;
  is_active = true;
}

abbrev basket : Cart
basket = record { id = 4; user_id = 7; status = CartStatus.active; revision = 3; updated_at = 90 }

abbrev begun : SessionStatus → CheckoutSession
begun status = record {
  id = 3;
  user_id = 7;
  cart_id = 4;
  address_id = 2;
  shipping_method_id = 1;
  idempotency_key = 60;
  finalization_key = none;
  status = status;
  cart_revision = 3;
  subtotal_toman = 2000;
  discount_toman = 0;
  shipping_toman = 300;
  tax_toman = 180;
  payable_toman = 2480;
  tax_rate_bps = 900;
  address_snapshot = address_snapshot home;
  shipping_snapshot = shipping_snapshot post country;
  expires_at = 1000;
  finalized_at = none;
  created_at = 100;
  updated_at = 100;
}

abbrev counter : Db
counter = record (shop OrderStatus.pending_payment) {
  addresses = home ∷ [];
  zones = country ∷ [];
  methods = post ∷ [];
  tax_policies = vat ∷ [];
  prices =
      record {
        id = 9;
        variant_id = 10;
        amount_toman = 1000;
        compare_at_toman = none;
        is_active = true;
        updated_at = 90;
      }
      ∷ [];
  carts = basket ∷ [];
  cart_lines = record { id = 5; cart_id = 4; variant_id = 10; quantity = 2; updated_at = 90 } ∷ [];
  sessions = begun SessionStatus.active ∷ [];
  checkout_lines =
      record {
        id = 6;
        checkout_id = 3;
        variant_id = 10;
        reservation_id = 50;
        quantity = 2;
        unit_price_toman = 1000;
        line_total_toman = 2000;
      }
      ∷ [];
  orders = [];
  order_lines = [];
}

quote-IsPriced_example : IsPriced post 2000 vat (quote post 2000 vat)
quote-IsPriced_example = quote-IsPriced post 2000 vat

resolve_zone-IsBest_example :
    Ends
      (λ zone t. (t ≡ counter) × IsBest plain home counter zone)
      (λ _ t. t ≡ counter)
      (resolve_zone plain home counter)
resolve_zone-IsBest_example = resolve_zone-IsBest plain home counter

create_checkout-IsCovered_example :
    Ends
      (λ _ t. Covered 100 t)
      (λ _ t. t ≡ counter)
      (create_checkout plain (λ i. 500 + i) customer 2 (b'p' ∷ []) 61 100 counter)
create_checkout-IsCovered_example =
    create_checkout-IsCovered plain (λ i. 500 + i) customer 2 (b'p' ∷ []) 61 100 counter
      held-IsCovered

cancel_checkout-IsCovered_example :
    Ends (λ _ t. Covered 100 t) (λ _ t. t ≡ counter) (cancel_checkout customer 3 100 counter)
cancel_checkout-IsCovered_example = cancel_checkout-IsCovered customer 3 100 counter held-IsCovered

finalize_checkout-Finalized_example :
    Ends
      (Finalized plain customer 3 62 200 counter)
      (λ _ t. t ≡ counter)
      (finalize_checkout plain customer 3 62 200 counter)
finalize_checkout-Finalized_example = finalize_checkout-Finalized plain customer 3 62 200 counter

finalize_checkout-late_example :
    Ends (λ _ _. ⊥) (λ _ t. t ≡ counter) (finalize_checkout plain customer 3 62 1000 counter)
finalize_checkout-late_example =
    finalize_checkout-late plain customer 3 62 1000 counter (begun SessionStatus.active) refl
      (omega arith)

abbrev ready_counter : Db
ready_counter = record counter { sessions = begun SessionStatus.ready ∷ [] }

create_order-Placed_example :
    Ends
      (λ r t.
        Answered customer 3 ready_counter r t
        ⊎ Placed plain (λ i. 700 + i) customer 3 63 200 ready_counter r t)
      (λ _ t. t ≡ ready_counter)
      (create_order plain (λ i. 700 + i) customer 3 63 200 ready_counter)
create_order-Placed_example =
    create_order-Placed plain (λ i. 700 + i) customer 3 63 200 ready_counter
