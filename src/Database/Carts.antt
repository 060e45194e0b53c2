-- ===== src/Database/Carts.antt =====
-- The rows of apps/cart/models.py.
use visio_backend.Prelude.{ℕ}

pub data CartStatus : Type 0 where
  active converted abandoned : CartStatus

pub record Cart : Type 0 where
  pub id : ℕ
  pub user_id : ℕ
  pub status : CartStatus
  pub revision : ℕ
  pub updated_at : ℕ

pub record CartLine : Type 0 where
  pub id : ℕ
  pub cart_id : ℕ
  pub variant_id : ℕ
  pub quantity : ℕ
  pub updated_at : ℕ
