-- ===== src/Payments/Attempts.antt =====
-- Starting a payment: `_amounts`, `_prepare_attempt`, `_mark_request_failure`,
-- `_record_request_success` and `start_payment` of apps/payments/services.py.
use visio_backend.Prelude.{
  ℕ, ◌+◌, ◌*◌, Bool, true, false, not, ◌&&◌, ◌||◌, Option, none, some, [], ◌==◌, ltb, ℤ, pos, ltb_ℤ,
  pos_part, Text, text_eq, is_empty, take, first, Error, Action, pure, raise, gets, or_raise,
  atomic, translate, branch, raise_if, ◌>>=◌, ◌>>◌, does_not_exist, integrity_error,
  payment_conflict, payment_provider, uncaught_error,
}
use visio_backend.Database.{Db}
use visio_backend.Database.Accounts.{User}
use visio_backend.Database.Orders.{OrderStatus, Order}
use visio_backend.Database.Payments.{PaymentStatus, PaymentAttempt}
use visio_backend.Orders.Lifecycle.{same_status, find_order, lock_user}
use visio_backend.Payments.Provider.{
  PaymentProvider, ProviderRequestResult, Reply, answered, failed, crashed,
}
use visio_backend.Payments.Rows.{
  is_active, is_verified, is_some, save_attempt, create_attempt, locked_attempt, locked_owned_order,
}

abbrev pub is_requesting : PaymentStatus → Bool
is_requesting PaymentStatus.requesting = true
is_requesting _ = false

abbrev pub is_underway : PaymentStatus → Bool
is_underway PaymentStatus.pending = true
is_underway PaymentStatus.verifying = true
is_underway _ = false

-- The amount in tomans and in rials. The column is never negative, and the source tests that again.
unfoldable pub amounts : ℤ → Action Db (ℕ × ℕ)
amounts payable_toman = do
  raise_if (ltb_ℤ payable_toman (pos 0)) payment_conflict
  raise_if (ltb (pos_part payable_toman * 10) 1_000) payment_conflict
  pure (pos_part payable_toman, pos_part payable_toman * 10)

-- `except IntegrityError as exc: raise PaymentConflictError`
abbrev pub integrity_to_conflict : Error → Error
integrity_to_conflict integrity_error = payment_conflict
integrity_to_conflict e = e

-- A new attempt.
unfoldable pub open_attempt : ℕ → Order → ℕ → Text → ℕ → Action Db (PaymentAttempt × Bool)
open_attempt uuid4 order idempotency_key provider_name now = do
  raise_if
      (is_some
        (← gets (λ db. first (λ a. a.order_id == order.id && is_active a.status) db.attempts)))
      payment_conflict
  (amount_toman, amount_rial) ← amounts (pos order.payable_toman)
  let row : PaymentAttempt = record {
    id = uuid4;
    order_id = order.id;
    idempotency_key = idempotency_key;
    provider = provider_name;
    status = PaymentStatus.requesting;
    amount_toman = amount_toman;
    amount_rial = amount_rial;
    provider_authority = [];
    provider_redirect_url = [];
    provider_ref_id = [];
    provider_code = none;
    provider_message = [];
    masked_card = [];
    card_hash = [];
    last_callback_status = [];
    request_count = 1;
    callback_count = 0;
    verify_count = 0;
    verified_at = none;
    status_changed_at = now;
    created_at = now;
    updated_at = now;
  }
  translate integrity_to_conflict (create_attempt row)
  pure (row, true)

-- A request again with the key of an attempt that is neither verified nor requesting.
unfoldable pub retry_attempt : PaymentAttempt → ℕ → Action Db (PaymentAttempt × Bool)
retry_attempt existing now =
    branch (not (is_empty existing.provider_authority) && is_underway existing.status)
      (pure (existing, false))
      do
        let row = record existing {
          status = PaymentStatus.requesting;
          request_count = existing.request_count + 1;
          status_changed_at = now;
          updated_at = now;
        }
        save_attempt row
        pure (row, false)

-- `_prepare_attempt` from the look for an attempt of this key on
unfoldable pub prepare_existing :
    Option PaymentAttempt → ℕ → Order → ℕ → Text → ℕ → Action Db (PaymentAttempt × Bool)
prepare_existing (some existing) uuid4 order idempotency_key provider_name now = do
  raise_if (not (text_eq existing.provider provider_name)) payment_conflict
  branch (is_verified existing.status) (pure (existing, false)) do
    raise_if (is_requesting existing.status) payment_conflict
    raise_if (not (same_status order.status OrderStatus.pending_payment)) payment_conflict
    retry_attempt existing now
prepare_existing none uuid4 order idempotency_key provider_name now = do
  raise_if (not (same_status order.status OrderStatus.pending_payment)) payment_conflict
  open_attempt uuid4 order idempotency_key provider_name now

unfoldable pub prepare_attempt : ℕ → User → ℕ → ℕ → Text → ℕ → Action Db (PaymentAttempt × Bool)
prepare_attempt uuid4 user order_public_id idempotency_key provider_name now = atomic do
  lock_user user
  order ← locked_owned_order user order_public_id
  existing ← gets (λ db.
      first (λ a. a.order_id == order.id && a.idempotency_key == idempotency_key) db.attempts)
  prepare_existing existing uuid4 order idempotency_key provider_name now

unfoldable pub mark_request_failure : ℕ → Text → ℕ → Action Db Unit
mark_request_failure attempt_id message now = atomic do
  attempt ← locked_attempt attempt_id
  branch (not (is_empty attempt.provider_authority) || is_verified attempt.status) (pure tt) (
      save_attempt (record attempt {
        status = PaymentStatus.failed;
        provider_message = take 500 message;
        status_changed_at = now;
        updated_at = now;
      }))

unfoldable pub record_request_success : ℕ → ProviderRequestResult → ℕ → Action Db PaymentAttempt
record_request_success attempt_id result now = atomic do
  attempt ← locked_attempt attempt_id
  branch (not (is_empty attempt.provider_authority) || is_verified attempt.status) (pure attempt) do
    let row = record attempt {
      provider_authority = result.authority;
      provider_redirect_url = result.redirect_url;
      provider_code = some result.code;
      provider_message = take 500 result.message;
      status = PaymentStatus.pending;
      status_changed_at = now;
      updated_at = now;
    }
    save_attempt row
    pure row

pub record PaymentStartResult : Type 0 where
  pub attempt : PaymentAttempt
  pub redirect_url : Text
  pub created : Bool

-- What follows the call of the provider; `later` is the clock then.
unfoldable pub conclude_request :
    PaymentAttempt → Bool → Reply ProviderRequestResult → ℕ → Action Db PaymentStartResult
conclude_request attempt created (failed message) later = do
  mark_request_failure attempt.id message later
  raise payment_provider
conclude_request attempt created crashed later = raise uncaught_error
conclude_request attempt created (answered result) later = do
  row ← record_request_success attempt.id result later
  pure (record { attempt = row; redirect_url = row.provider_redirect_url; created = created })

-- `attempt.order.user.email`
abbrev email_of : ℕ → Db → Option Text
email_of user_id db = elim (first (λ u. u.id == user_id) db.users) [
  | none ↦ none
  | some u ↦ some u.email
]

unfoldable pub start_payment :
    PaymentProvider → ℕ → User → ℕ → ℕ → ℕ → ℕ → Action Db PaymentStartResult
start_payment provider uuid4 user order_public_id idempotency_key now later = do
  (attempt, created) ← prepare_attempt uuid4 user order_public_id idempotency_key provider.name now
  branch (not (is_empty attempt.provider_authority) && not (is_empty attempt.provider_redirect_url))
      (pure (record {
        attempt = attempt;
        redirect_url = attempt.provider_redirect_url;
        created = false;
      }))
      (branch (is_verified attempt.status)
        (pure (record { attempt = attempt; redirect_url = []; created = false }))
        do
          order ← or_raise (← gets (find_order attempt.order_id)) does_not_exist
          email ← or_raise (← gets (email_of order.user_id)) does_not_exist
          conclude_request attempt created
              (provider.request_payment attempt.amount_rial order.public_id email) later)
