-- ===== src/Payments/Verification.antt =====
-- Verifying a payment: `_verified_outcome`, `_record_provider_error`, `_apply_verified_result`,
-- `verify_attempt`, `process_callback` and `reconcile_attempt` of apps/payments/services.py.
use visio_backend.Prelude.{
  ℕ, ◌+◌, ◌*◌, Bool, true, false, not, ◌&&◌, ◌||◌, none, some, [], ◌∷◌, ◌==◌, Text, text_eq,
  is_empty, take, first, Error, Action, pure, raise, gets, or_raise, atomic, branch, catch,
  raise_if, ◌>>=◌, ◌>>◌, does_not_exist, inventory_unavailable, reservation_state, order_not_found,
  order_conflict, order_stale, order_transition, payment_conflict, payment_not_found,
  payment_provider, uncaught_error,
}
use visio_backend.Database.{Db}
use visio_backend.Database.Orders.{Order}
use visio_backend.Database.Payments.{PaymentStatus, PaymentAttempt, ReconciliationStatus}
use visio_backend.Orders.Lifecycle.{
  is_payment_confirmed, find_order, confirm_order_after_verified_payment,
}
use visio_backend.Payments.Provider.{
  PaymentProvider, ProviderVerifyResult, Reply, answered, failed, crashed,
}
use visio_backend.Payments.Rows.{
  is_verified, has_mismatch, save_attempt, create_reconciliation, locked_attempt,
}
use visio_backend.Payments.Attempts.{is_underway}

-- `PaymentVerificationOutcome`
pub record Outcome : Type 0 where
  pub attempt : PaymentAttempt
  pub order_confirmed : Bool
  pub reconciliation_required : Bool

-- `Order.objects.get(pk=...)`
unfoldable pub get_order : ℕ → Action Db Order
get_order order_id = do or_raise (← gets (find_order order_id)) does_not_exist

unfoldable pub verified_outcome : PaymentAttempt → Action Db Outcome
verified_outcome attempt = do
  order ← get_order attempt.order_id
  mismatch ← gets (has_mismatch attempt.id)
  pure (record {
    attempt = attempt;
    order_confirmed = is_payment_confirmed order.status;
    reconciliation_required = mismatch;
  })

unfoldable pub record_provider_error : ℕ → ℕ → Text → ℕ → Action Db Unit
record_provider_error uuid4 attempt_id message now = atomic do
  attempt ← locked_attempt attempt_id
  branch (is_verified attempt.status) (pure tt) do
    save_attempt (record attempt {
      status = PaymentStatus.failed;
      provider_message = take 500 message;
      status_changed_at = now;
      updated_at = now;
    })
    create_reconciliation (record {
      id = uuid4;
      attempt_id = attempt.id;
      status = ReconciliationStatus.provider_error;
      provider_code = none;
      provider_ref_id = [];
      checked_at = now;
    })

-- the attempt with the provider's truth
abbrev pub verified_row : PaymentAttempt → ProviderVerifyResult → ℕ → PaymentAttempt
verified_row attempt result now = record attempt {
  status = PaymentStatus.verified;
  provider_code = some result.code;
  provider_message = take 500 result.message;
  provider_ref_id = result.ref_id;
  masked_card = take 32 result.masked_card;
  card_hash = take 128 result.card_hash;
  verified_at = some now;
  status_changed_at = now;
  updated_at = now;
}

-- What the first block of `_apply_verified_result` hands on: it returned, or it stored the truth.
pub data Truth : Type 0 where
  known : Outcome → Truth
  stored : ℕ → Bool → Truth

unfoldable pub store_truth : ℕ → ProviderVerifyResult → ℕ → Action Db Truth
store_truth attempt_id result now = atomic do
  attempt ← locked_attempt attempt_id
  branch (is_verified attempt.status) (do outcome ← verified_outcome attempt; pure (known outcome))
      do
        order ← get_order attempt.order_id
        save_attempt (verified_row attempt result now)
        pure (stored order.id (attempt.amount_rial == order.payable_toman * 10))

-- `except (OrderError, InventoryUnavailableError, ReservationStateError)`
abbrev pub cannot_confirm : Error → Bool
cannot_confirm order_not_found = true
cannot_confirm order_conflict = true
cannot_confirm order_stale = true
cannot_confirm order_transition = true
cannot_confirm inventory_unavailable = true
cannot_confirm reservation_state = true
cannot_confirm _ = false

unfoldable pub record_match :
    ℕ → PaymentAttempt → ProviderVerifyResult → ReconciliationStatus → Bool → ℕ → Action Db Outcome
record_match uuid4 attempt result status confirmed now = do
  create_reconciliation (record {
    id = uuid4;
    attempt_id = attempt.id;
    status = status;
    provider_code = some result.code;
    provider_ref_id = result.ref_id;
    checked_at = now;
  })
  pure (record {
    attempt = attempt;
    order_confirmed = confirmed;
    reconciliation_required = not confirmed;
  })

-- the second block of `_apply_verified_result`
unfoldable pub reconcile_order : ℕ → ℕ → ProviderVerifyResult → Truth → ℕ → Action Db Outcome
reconcile_order uuid4 attempt_id result (known outcome) now = pure outcome
reconcile_order uuid4 attempt_id result (stored order_id amount_matches) now = atomic do
  attempt ← locked_attempt attempt_id
  order ← get_order order_id
  branch (not amount_matches)
      (record_match uuid4 attempt result ReconciliationStatus.mismatch false now)
      do
        confirmed ←
            catch cannot_confirm (do confirm_order_after_verified_payment order.id now; pure true)
              (pure false)
        branch confirmed (record_match uuid4 attempt result ReconciliationStatus.matched true now)
            (record_match uuid4 attempt result ReconciliationStatus.mismatch false now)

unfoldable pub apply_verified_result : ℕ → ℕ → ProviderVerifyResult → ℕ → Action Db Outcome
apply_verified_result uuid4 attempt_id result now = do
  truth ← store_truth attempt_id result now
  reconcile_order uuid4 attempt_id result truth now

abbrev pub is_verifying : PaymentStatus → Bool
is_verifying PaymentStatus.verifying = true
is_verifying _ = false

-- the set of statuses from which a payment can be verified
abbrev pub is_verifiable : PaymentStatus → Bool
is_verifiable PaymentStatus.pending = true
is_verifiable PaymentStatus.failed = true
is_verifiable PaymentStatus.cancelled = true
is_verifiable PaymentStatus.expired = true
is_verifiable _ = false

-- What the first block of `verify_attempt` hands on: an outcome, or what to ask the provider.
pub data Claim : Type 0 where
  answered_before : Outcome → Claim
  ask : ℕ → Text → Claim

unfoldable pub claim_attempt : Text → ℕ → ℕ → Action Db Claim
claim_attempt provider_name attempt_id now = atomic do
  attempt ← locked_attempt attempt_id
  raise_if (not (text_eq attempt.provider provider_name)) payment_conflict
  branch (is_verified attempt.status)
      (do outcome ← verified_outcome attempt; pure (answered_before outcome))
      do
        raise_if (is_verifying attempt.status) payment_conflict
        raise_if (is_empty attempt.provider_authority) payment_conflict
        raise_if (not (is_verifiable attempt.status)) payment_conflict
        save_attempt (record attempt {
          status = PaymentStatus.verifying;
          verify_count = attempt.verify_count + 1;
          status_changed_at = now;
          updated_at = now;
        })
        pure (ask attempt.amount_rial attempt.provider_authority)

-- What follows the call of the provider; `later` is the clock then.
unfoldable pub conclude_verification : ℕ → ℕ → Reply ProviderVerifyResult → ℕ → Action Db Outcome
conclude_verification uuid4 attempt_id (failed message) later = do
  record_provider_error uuid4 attempt_id message later
  raise payment_provider
conclude_verification uuid4 attempt_id crashed later = raise uncaught_error
conclude_verification uuid4 attempt_id (answered result) later =
    apply_verified_result uuid4 attempt_id result later

unfoldable pub ask_provider : PaymentProvider → ℕ → ℕ → Claim → ℕ → Action Db Outcome
ask_provider provider uuid4 attempt_id (answered_before outcome) later = pure outcome
ask_provider provider uuid4 attempt_id (ask amount_rial authority) later =
    conclude_verification uuid4 attempt_id (provider.verify_payment amount_rial authority) later

unfoldable pub verify_attempt : PaymentProvider → ℕ → ℕ → ℕ → ℕ → Action Db Outcome
verify_attempt provider uuid4 attempt_id now later = do
  claim ← claim_attempt provider.name attempt_id now
  ask_provider provider uuid4 attempt_id claim later

unfoldable pub reconcile_attempt : PaymentProvider → ℕ → ℕ → ℕ → ℕ → Action Db Outcome
reconcile_attempt = verify_attempt

-- `callback_status.upper() == "OK"`: no other letters have these capitals
abbrev pub is_ok : Text → Bool
is_ok (a ∷ b ∷ []) = (a == b'O' || a == b'o') && (b == b'K' || b == b'k')
is_ok _ = false

-- What the block of `process_callback` hands on: an outcome, or the attempt to verify.
pub data Callback : Type 0 where
  settled : Outcome → Callback
  verify : ℕ → Callback

abbrev pub counted : PaymentAttempt → Text → ℕ → PaymentAttempt
counted attempt callback_status now = record attempt {
  callback_count = attempt.callback_count + 1;
  last_callback_status = take 32 callback_status;
  updated_at = now;
}

-- the branch of a callback that is not `OK`
unfoldable pub refuse_callback : PaymentAttempt → ℕ → Action Db Callback
refuse_callback row now =
    branch (is_underway row.status)
      (do
        let cancelled_row = record row { status = PaymentStatus.cancelled; status_changed_at = now }
        save_attempt cancelled_row
        pure (
            settled (record {
              attempt = cancelled_row;
              order_confirmed = false;
              reconciliation_required = false;
            })))
      (pure (
        settled
          (record { attempt = row; order_confirmed = false; reconciliation_required = false })))

unfoldable pub take_callback : Text → Text → Text → ℕ → Action Db Callback
take_callback provider_name authority callback_status now = atomic do
  attempt ←
      or_raise
        (← gets (λ db.
          first (λ a. text_eq a.provider provider_name && text_eq a.provider_authority authority)
            db.attempts))
        payment_not_found
  let row = counted attempt callback_status now
  save_attempt row
  branch (is_verified row.status) (do outcome ← verified_outcome row; pure (settled outcome))
      (branch (not (is_ok callback_status)) (refuse_callback row now) (pure (verify row.id)))

unfoldable pub follow_callback : PaymentProvider → ℕ → Callback → ℕ → ℕ → Action Db Outcome
follow_callback provider uuid4 (settled outcome) now later = pure outcome
follow_callback provider uuid4 (verify attempt_id) now later =
    verify_attempt provider uuid4 attempt_id now later

unfoldable pub process_callback : PaymentProvider → ℕ → Text → Text → ℕ → ℕ → Action Db Outcome
process_callback provider uuid4 authority callback_status now later = do
  callback ← take_callback provider.name authority callback_status now
  follow_callback provider uuid4 callback now later
