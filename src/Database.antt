-- ===== src/Database.antt =====
-- The database that the services share: one table for each model, read and written by the actions
-- of the services. The rows are in the modules below, one for each app.
pub mod Accounts
pub mod Carts
pub mod Checkout
pub mod Orders
pub mod Payments
pub mod Operations
use visio_backend.Prelude.{ℕ, Bool, Option, List, Action, Result, ok, err}
use visio_backend.Commerce.Models.{Stock}
use Accounts.{User, Address}
use Carts.{Cart, CartLine}
use Checkout.{ShippingZone, ShippingMethod, TaxPolicy, CheckoutSession, CheckoutLine}
use Orders.{Order, OrderLine}
use Payments.{PaymentAttempt, Reconciliation}
use Operations.{Notification}

-- `ProductVariantOption`, joined with `option` and `value`
pub record Selection : Type 0 where
  pub id : ℕ
  pub variant_id : ℕ
  pub position : ℕ
  pub option_key : ℕ
  pub option_label : ℕ
  pub value : ℕ
  pub value_label : ℕ

-- `VariantPrice`
pub record Price : Type 0 where
  pub id : ℕ
  pub variant_id : ℕ
  pub amount_toman : ℕ
  pub compare_at_toman : Option ℕ
  pub is_active : Bool
  pub updated_at : ℕ

pub record Db : Type 0 where
  pub users : List User
  pub addresses : List Address
  pub selections : List Selection
  pub prices : List Price
  pub stock : Stock
  pub carts : List Cart
  pub cart_lines : List CartLine
  pub zones : List ShippingZone
  pub methods : List ShippingMethod
  pub tax_policies : List TaxPolicy
  pub sessions : List CheckoutSession
  pub checkout_lines : List CheckoutLine
  pub orders : List Order
  pub order_lines : List OrderLine
  pub attempts : List PaymentAttempt
  pub reconciliations : List Reconciliation
  pub outbox : List Notification

abbrev pub with_stock : {A : Type 0} → Db → Result A × Stock → Result A × Db
with_stock db (r, s) = (r, record db { stock = s })

-- A call of apps/commerce/services.py.
unfoldable pub on_stock : {A : Type 0} → Action Stock A → Action Db A
on_stock m db = with_stock db (m db.stock)
