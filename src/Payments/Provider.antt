-- ===== src/Payments/Provider.antt =====
-- `PaymentProvider` of apps/payments/providers/base.py: what the services ask of a provider. A call
-- answers, raises `ProviderError` with a message, or raises another exception, which the services do
-- not catch.
use visio_backend.Prelude.{ℕ, ℤ, Text}

pub record ProviderRequestResult : Type 0 where
  pub code : ℤ
  pub message : Text
  pub authority : Text
  pub redirect_url : Text

pub record ProviderVerifyResult : Type 0 where
  pub code : ℤ
  pub message : Text
  pub ref_id : Text
  pub masked_card : Text
  pub card_hash : Text

pub data Reply (A : Type 0) : Type 0 where
  answered : A → Reply A
  failed : Text → Reply A
  crashed : Reply A

-- `request_payment` takes the amount, the order of its description and the customer's email; the
-- callback URL is a setting. `verify_payment` takes the amount and the authority.
pub record PaymentProvider : Type 0 where
  pub name : Text
  pub request_payment : ℕ → ℕ → Text → Reply ProviderRequestResult
  pub verify_payment : ℕ → Text → Reply ProviderVerifyResult
