-- ===== src/Orders/Tests.antt =====
-- The theorems on the order lifecycle at a database with one pending order of one line.
use visio_backend.Prelude.{◌≡◌, some, none, [], ◌∷◌, Ends}
use visio_backend.Commerce.Tests.{held, held-IsCovered}
use visio_backend.Database.{Db}
use visio_backend.Database.Accounts.{User}
use visio_backend.Database.Orders.{OrderStatus, Order, OrderLine}
use visio_backend.Orders.Lifecycle.{
  find_order, confirm_order_after_verified_payment, expire_order, advance_fulfillment,
}
use visio_backend.Orders.Lifecycle.Transitions.{
  KeptOrMoved, ConfirmedFrom, ClosedAs, confirm_order-ConfirmedFrom, expire_order-ClosedAs,
  advance_fulfillment-Moved,
}

abbrev pub customer : User
customer = record { id = 7; email = b'a' ∷ b'@' ∷ b'b' ∷ []; username = b'a' ∷ [] }

abbrev pub order_in : OrderStatus → Order
order_in status = record {
  id = 1;
  public_id = 101;
  user_id = 7;
  checkout_id = 3;
  idempotency_key = 4;
  status = status;
  status_changed_at = 100;
  customer_snapshot = record { user_id = 7; email = b'a' ∷ b'@' ∷ b'b' ∷ []; username = b'a' ∷ [] };
  address_snapshot = record {
    id = 2;
    recipient_name = [];
    recipient_phone = [];
    country_code = [];
    province = [];
    city = [];
    postal_code = [];
    address_line1 = [];
    address_line2 = [];
  };
  shipping_snapshot = record {
    id = 2;
    code = [];
    name = [];
    zone_code = [];
    delivery_min_days = none;
    delivery_max_days = none;
  };
  subtotal_toman = 2000;
  discount_toman = 0;
  shipping_toman = 300;
  tax_toman = 180;
  payable_toman = 2480;
  tax_rate_bps = 900;
  updated_at = 100;
}

abbrev line : OrderLine
line = record {
  id = 20;
  order_id = 1;
  reservation_id = 50;
  source_product_id = 5;
  source_product_slug = 6;
  source_product_name = 7;
  source_variant_id = 10;
  source_variant_sku = 8;
  option_snapshot = [];
  quantity = 2;
  unit_price_toman = 1000;
  line_total_toman = 2000;
}

abbrev pub shop : OrderStatus → Db
shop status = record {
  users = customer ∷ [];
  addresses = [];
  selections = [];
  prices = [];
  stock = held;
  carts = [];
  cart_lines = [];
  zones = [];
  methods = [];
  tax_policies = [];
  sessions = [];
  checkout_lines = [];
  orders = order_in status ∷ [];
  order_lines = line ∷ [];
  attempts = [];
  reconciliations = [];
  outbox = [];
}

abbrev waiting : Db
waiting = shop OrderStatus.pending_payment

confirm_order-ConfirmedFrom_example :
    Ends
      (ConfirmedFrom 1 100 waiting)
      (λ _ t. t ≡ waiting)
      (confirm_order_after_verified_payment 1 100 waiting)
confirm_order-ConfirmedFrom_example = confirm_order-ConfirmedFrom 1 100 waiting held-IsCovered

expire_order-ClosedAs_example :
    Ends
      (λ order t.
        (old : Order) × (find_order 1 waiting ≡ some old)
        × ClosedAs OrderStatus.expired 100 old waiting order t)
      (λ _ t. t ≡ waiting)
      (expire_order 1 100 waiting)
expire_order-ClosedAs_example = expire_order-ClosedAs 1 100 waiting held-IsCovered

abbrev paid : Db
paid = shop OrderStatus.confirmed

advance_fulfillment-Moved_example :
    Ends
      (λ order t.
        (old : Order) × (find_order 1 paid ≡ some old)
        × KeptOrMoved 200 paid old order t
        × (order.status ≡ OrderStatus.processing)
        × (t.stock ≡ paid.stock))
      (λ _ t. t ≡ paid)
      (advance_fulfillment 1 OrderStatus.processing 200 paid)
advance_fulfillment-Moved_example = advance_fulfillment-Moved 1 OrderStatus.processing 200 paid
