-- ===== src/Database/Payments.antt =====
-- The rows of apps/payments/models.py.
use visio_backend.Prelude.{ℕ, Text, ℤ, Option}

pub data PaymentStatus : Type 0 where
  new requesting pending verifying verified failed cancelled expired : PaymentStatus

pub record PaymentAttempt : Type 0 where
  pub id : ℕ
  pub order_id : ℕ
  pub idempotency_key : ℕ
  pub provider : Text
  pub status : PaymentStatus
  pub amount_toman : ℕ
  pub amount_rial : ℕ
  pub provider_authority : Text
  pub provider_redirect_url : Text
  pub provider_ref_id : Text
  pub provider_code : Option ℤ
  pub provider_message : Text
  pub masked_card : Text
  pub card_hash : Text
  pub last_callback_status : Text
  pub request_count : ℕ
  pub callback_count : ℕ
  pub verify_count : ℕ
  pub verified_at : Option ℕ
  pub status_changed_at : ℕ
  pub created_at : ℕ
  pub updated_at : ℕ

pub data ReconciliationStatus : Type 0 where
  matched mismatch provider_error : ReconciliationStatus

-- `PaymentReconciliation`, less the digest and the detail text
pub record Reconciliation : Type 0 where
  pub id : ℕ
  pub attempt_id : ℕ
  pub status : ReconciliationStatus
  pub provider_code : Option ℤ
  pub provider_ref_id : Text
  pub checked_at : ℕ
