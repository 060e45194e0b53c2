-- ===== src/Payments/Tests.antt =====
-- Runs of the services of apps/payments, and the theorems on them, at one order of 24800 rials.
use visio_backend.Prelude.{
  codes, ℕ, ◌≡◌, refl, pos, true, none, some, text_eq, [], ◌∷◌, List, Text, arith, ◌⊎◌, Ends,
  payment_conflict,
}
use visio_backend.Database.{Db}
use visio_backend.Database.Orders.{OrderStatus}
use visio_backend.Database.Payments.{PaymentStatus, PaymentAttempt}
use visio_backend.Orders.Tests.{customer, shop}
use visio_backend.Payments.Provider.{PaymentProvider, ProviderVerifyResult, answered}
use visio_backend.Payments.Attempts.{start_payment, retry_attempt}
use visio_backend.Payments.Verification.{verify_attempt, process_callback, apply_verified_result}
use visio_backend.Payments.Safety.Authority.{SameOrders, Warranted, verify_attempt-Warranted}
use visio_backend.Payments.Safety.Evidence.{AllEvidenced, start_payment-AllEvidenced}
use visio_backend.Payments.Safety.Verifying.{process_callback-AllEvidenced}
use visio_backend.Payments.Json.{Json, Fields, field, no_fields}
use visio_backend.Payments.Zarinpal
use visio_backend.Payments.Zarinpal.{
  HttpAnswer, Environment, ZarinpalClient, Attempted, verify_payment, zarinpal_provider,
}
use visio_backend.Payments.Approvals.{Approved}
use visio_backend.Payments.Approval.{verify_attempt-Approved}
use visio_backend.Payments.Safety.Truth.{
  IsKnown, apply_verified_result-IsKnown, apply_verified_result-refused,
}
use visio_backend.Payments.Safety.Stranded.{IsRequesting, retry_attempt-strands}

abbrev receipt : ProviderVerifyResult
receipt = record {
  code = pos 100;
  message = [];
  ref_id = b'9' ∷ [];
  masked_card = [];
  card_hash = [];
}

abbrev bank : PaymentProvider
bank = record {
  name = b'z' ∷ [];
  request_payment = λ amount order email.
      answered
        (record { code = pos 100; message = []; authority = b'A' ∷ []; redirect_url = b'U' ∷ [] });
  verify_payment = λ amount authority. answered receipt;
}

abbrev attempt_in : PaymentStatus → ℕ → Text → PaymentAttempt
attempt_in status i authority = record {
  id = i;
  order_id = 1;
  idempotency_key = i;
  provider = b'z' ∷ [];
  status = status;
  amount_toman = 2480;
  amount_rial = 24800;
  provider_authority = authority;
  provider_redirect_url = b'U' ∷ [];
  provider_ref_id = [];
  provider_code = none;
  provider_message = [];
  masked_card = [];
  card_hash = [];
  last_callback_status = [];
  request_count = 1;
  callback_count = 0;
  verify_count = 0;
  verified_at = none;
  status_changed_at = 100;
  created_at = 100;
  updated_at = 100;
}

abbrev till : List PaymentAttempt → Db
till attempts = record (shop OrderStatus.pending_payment) { attempts = attempts }

abbrev underway : PaymentAttempt
underway = attempt_in PaymentStatus.pending 70 (b'A' ∷ [])

abbrev failed_once : PaymentAttempt
failed_once = attempt_in PaymentStatus.failed 70 (b'A' ∷ [])

abbrev second : PaymentAttempt
second = attempt_in PaymentStatus.pending 71 (b'B' ∷ [])

abbrev ok_status : Text
ok_status = b'O' ∷ b'k' ∷ []

verify_attempt-Warranted_example :
    Ends
      (λ _ t. SameOrders (till (underway ∷ [])) t ⊎ Warranted bank 70 300 (till (underway ∷ [])) t)
      (λ _ t. SameOrders (till (underway ∷ [])) t)
      (verify_attempt bank 80 70 200 300 (till (underway ∷ [])))
verify_attempt-Warranted_example =
    verify_attempt-Warranted bank 80 70 200 300 (till (underway ∷ []))

start_payment-AllEvidenced_example :
    Ends
      (λ _ t. AllEvidenced t)
      (λ _ t. AllEvidenced t)
      (start_payment bank 70 customer 101 4 200 300 (till []))
start_payment-AllEvidenced_example =
    start_payment-AllEvidenced bank 70 customer 101 4 200 300 (till []) tt

underway-AllEvidenced : AllEvidenced (till (underway ∷ []))
underway-AllEvidenced = (record { verified_dated = refl; exact = refl }, tt)

process_callback-AllEvidenced_example :
    Ends
      (λ _ t. AllEvidenced t)
      (λ _ t. AllEvidenced t)
      (process_callback bank 80 (b'A' ∷ []) ok_status 200 300 (till (underway ∷ [])))
process_callback-AllEvidenced_example =
    process_callback-AllEvidenced bank 80 (b'A' ∷ []) ok_status 200 300 (till (underway ∷ []))
      underway-AllEvidenced

apply_verified_result-IsKnown_example :
    Ends
      (λ _ t. IsKnown 70 t)
      (λ _ t. IsKnown 70 t ⊎ (t ≡ till (underway ∷ [])))
      (apply_verified_result 80 70 receipt 300 (till (underway ∷ [])))
apply_verified_result-IsKnown_example =
    apply_verified_result-IsKnown 80 70 receipt 300 (till (underway ∷ []))

apply_verified_result-refused_example :
    Ends
      (λ _ _. ⊥)
      (λ _ t. t ≡ till (failed_once ∷ second ∷ []))
      (apply_verified_result 80 70 receipt 300 (till (failed_once ∷ second ∷ [])))
apply_verified_result-refused_example =
    apply_verified_result-refused 80 receipt 300 (till (failed_once ∷ second ∷ [])) failed_once
      second refl refl refl (λ e. omega arith) refl refl

retry_attempt-strands_example :
    Ends
      (λ r t.
        (r.0.provider_authority ≡ b'A' ∷ [])
        × (r.0.provider_redirect_url ≡ b'U' ∷ [])
        × IsRequesting 70 t
        × Ends
            (λ _ _. ⊥)
            (λ e u. (u ≡ t) × (e ≡ payment_conflict))
            (verify_attempt bank 80 70 300 400 t))
      (λ _ _. Unit {0})
      (retry_attempt failed_once 200 (till (failed_once ∷ [])))
retry_attempt-strands_example =
    retry_attempt-strands bank failed_once 80 200 300 400 (till (failed_once ∷ [])) refl refl

-- An answer of the Zarinpal service.
abbrev approval : Fields
approval =
    field (codes "data")
      (Json.object (
        field (codes "code") (Json.integer (pos 100))
          (field (codes "ref_id") (Json.text (b'9' ∷ [])) no_fields)))
      no_fields

abbrev online : Environment
online = record {
  urlopen = λ url content authorization. HttpAnswer.body content;
  dumps = λ d. [];
  loads = λ t. some (Json.object approval);
  str_int = λ z. [];
}

abbrev merchant : ZarinpalClient
merchant = record { merchant_id = b'm' ∷ []; sandbox = true; access_token = [] }

abbrev zarinpal : PaymentProvider
zarinpal = zarinpal_provider online merchant (λ x. []) [] (λ n. [])

verify_attempt-Approved_example :
    Ends
      (λ _ t.
        SameOrders (till (underway ∷ [])) t
        ⊎ ((w : Warranted zarinpal 70 300 (till (underway ∷ [])) t) × Approved online merchant
              w.attempt.amount_rial w.attempt.provider_authority w.result))
      (λ _ t. SameOrders (till (underway ∷ [])) t)
      (verify_attempt zarinpal 80 70 200 300 (till (underway ∷ [])))
verify_attempt-Approved_example =
    verify_attempt-Approved online merchant (λ x. []) [] (λ n. []) 80 70 200 300
      (till (underway ∷ []))

-- The client accepts the answer.
zarinpal_run :
    verify_payment online merchant 24800 (b'A' ∷ [])
    ≡ Attempted.done (record {
      code = pos 100;
      message = [];
      ref_id = b'9' ∷ [];
      masked_card = [];
      card_hash = [];
    })
unfolding verify_payment Zarinpal.◌>>=◌ text_eq
zarinpal_run = refl
