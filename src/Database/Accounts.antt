-- ===== src/Database/Accounts.antt =====
-- The rows of apps/accounts/models.py that the services read.
use visio_backend.Prelude.{ℕ, Text}

pub record User : Type 0 where
  pub id : ℕ
  pub email : Text
  pub username : Text

pub record Address : Type 0 where
  pub id : ℕ
  pub user_id : ℕ
  pub recipient_name : Text
  pub recipient_phone : Text
  pub country_code : Text
  pub province : Text
  pub city : Text
  pub postal_code : Text
  pub address_line1 : Text
  pub address_line2 : Text
