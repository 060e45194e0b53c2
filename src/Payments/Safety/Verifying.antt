-- ===== src/Payments/Safety/Verifying.antt =====
-- The invariants of Evidence.antt under the verification and callback services.
use visio_backend.Prelude.{
  ℕ, ◌≡◌, refl, sym, ◌∙◌, subst, Bool, false, All, first-All, Text, ◌>>=◌, Ends, Ends-mono,
  Ends-atomic, Ends-pure, Ends-raise, Ends-branch, Ends-bind, Ends-catch, then_gets, then_or_raise,
  then_raise_if, then_read,
}
use visio_backend.Database.{Db}
use visio_backend.Database.Payments.{PaymentAttempt, ReconciliationStatus, Reconciliation}
use visio_backend.Orders.Lifecycle.{confirm_order_after_verified_payment}
use visio_backend.Orders.Lifecycle.Frame.{confirm_order-frame, attempts-ConfirmFrame}
use visio_backend.Payments.Provider.{
  PaymentProvider, ProviderVerifyResult, Reply, answered, failed, crashed,
}
use visio_backend.Payments.Rows.{is_verified, create_reconciliation}
use visio_backend.Payments.Verification.{
  Truth, known, stored, Claim, answered_before, ask, Callback, settled, verify, counted,
  record_provider_error, store_truth, record_match, reconcile_order, apply_verified_result,
  claim_attempt, conclude_verification, ask_provider, verify_attempt, refuse_callback,
  take_callback, follow_callback, process_callback,
}
use visio_backend.Payments.Safety.Writes.{
  locked_attempt-reads, get_order-reads, verified_outcome-reads,
}
use visio_backend.Payments.Safety.Evidence.{IsEvidenced, AllEvidenced, save_attempt-AllEvidenced}

create_reconciliation-AllEvidenced :
    (row : Reconciliation) (s : Db)
    → AllEvidenced s
    → Ends (λ _ t. AllEvidenced t) (λ _ _. Unit {0}) (create_reconciliation row s)
unfolding create_reconciliation ◌>>=◌
create_reconciliation-AllEvidenced row s h = record { at = h }

record_match-AllEvidenced :
    (uuid4 : ℕ) (attempt : PaymentAttempt) (result : ProviderVerifyResult)
    (status : ReconciliationStatus) (confirmed : Bool) (now : ℕ) (s : Db)
    → AllEvidenced s
    → Ends
        (λ _ t. AllEvidenced t)
        (λ _ _. Unit {0})
        (record_match uuid4 attempt result status confirmed now s)
unfolding record_match
record_match-AllEvidenced uuid4 attempt result status confirmed now s h =
    Ends-bind (λ _ t. AllEvidenced t) _ _ s (create_reconciliation-AllEvidenced _ s h)
      λ _ t k. Ends-pure _ t k

confirm-AllEvidenced :
    (order_id now : ℕ) (s : Db)
    → AllEvidenced s
    → Ends
        (λ _ t. AllEvidenced t)
        (λ _ t. AllEvidenced t)
        (confirm_order_after_verified_payment order_id now s)
confirm-AllEvidenced order_id now s h =
    Ends-mono _ _ _ _ _
      (λ order t frame.
        subst (All IsEvidenced) (sym (attempts-ConfirmFrame order_id now s order t frame)) h)
      (λ _ t same. subst (λ (d : Db). AllEvidenced d) (sym same) h)
      (confirm_order-frame order_id now s)

module _ (s : Db) (h : AllEvidenced s) where
  record_provider_error-AllEvidenced :
      (uuid4 attempt_id : ℕ) (message : Text) (now : ℕ)
      → Ends
          (λ _ t. AllEvidenced t)
          (λ _ t. AllEvidenced t)
          (record_provider_error uuid4 attempt_id message now s)
  unfolding record_provider_error
  record_provider_error-AllEvidenced uuid4 attempt_id message now = Ends-atomic _ s (
      then_read _ _ _ s (locked_attempt-reads attempt_id s) (λ _. h)
        λ a found.
          let e = first-All IsEvidenced _ s.attempts a h found in
          Ends-branch _ _ _ s (λ _. Ends-pure _ s h)
            λ fresh.
              Ends-bind (λ _ t. AllEvidenced t) _ _ s
                (Ends-mono _ _ _ _ _ (λ _ _ k. k) (λ _ _ _. h)
                  (save_attempt-AllEvidenced _ s
                    (record { verified_dated = sym fresh ∙ e.verified_dated; exact = e.exact }) h))
                λ _ t k.
                  Ends-mono _ _ _ _ _ (λ _ _ q. q) (λ _ _ _. h)
                    (create_reconciliation-AllEvidenced _ t k))

  store_truth-AllEvidenced :
      (attempt_id : ℕ) (result : ProviderVerifyResult) (now : ℕ)
      → Ends (λ _ t. AllEvidenced t) (λ _ t. AllEvidenced t) (store_truth attempt_id result now s)
  unfolding store_truth
  store_truth-AllEvidenced attempt_id result now = Ends-atomic _ s (
      then_read _ _ _ s (locked_attempt-reads attempt_id s) (λ _. h)
        λ a found.
          let e = first-All IsEvidenced _ s.attempts a h found in
          Ends-branch _ _ _ s
            (λ _. then_read _ _ _ s (verified_outcome-reads a s) (λ _. h) λ out _. Ends-pure _ s h)
            λ fresh.
              then_read _ _ _ s (get_order-reads a.order_id s) (λ _. h)
                λ order _.
                  Ends-bind (λ _ t. AllEvidenced t) _ _ s
                    (Ends-mono _ _ _ _ _ (λ _ _ k. k) (λ _ _ _. h)
                      (save_attempt-AllEvidenced _ s
                        (record { verified_dated = refl; exact = e.exact }) h))
                    λ _ t k. Ends-pure _ t k)

  reconcile_order-AllEvidenced :
      (uuid4 attempt_id : ℕ) (result : ProviderVerifyResult) (truth : Truth) (now : ℕ)
      → Ends
          (λ _ t. AllEvidenced t)
          (λ _ t. AllEvidenced t)
          (reconcile_order uuid4 attempt_id result truth now s)
  unfolding reconcile_order
  reconcile_order-AllEvidenced uuid4 attempt_id result (known outcome) now = Ends-pure _ s h
  reconcile_order-AllEvidenced uuid4 attempt_id result (stored order_id matches) now =
      Ends-atomic _ s (
        then_read _ _ _ s (locked_attempt-reads attempt_id s) (λ _. h)
          λ a found.
            then_read _ _ _ s (get_order-reads order_id s) (λ _. h)
              λ order _.
                Ends-branch _ _ _ s
                  (λ _.
                    Ends-mono _ _ _ _ _ (λ _ _ k. k) (λ _ _ _. h)
                      (record_match-AllEvidenced _ _ _ _ _ _ s h))
                  λ _.
                    Ends-bind (λ _ t. AllEvidenced t) _ _ s
                      (Ends-catch (λ _ t. AllEvidenced t) _ _ _ s
                        (Ends-bind (λ _ t. AllEvidenced t) _ _ s
                          (confirm-AllEvidenced order.id now s h) λ _ t k. Ends-pure _ t k)
                        (λ _ t k _. Ends-pure _ t k) (λ _ _ _ _. h))
                      λ confirmed t k.
                        Ends-branch _ _ _ t
                          (λ _.
                            Ends-mono _ _ _ _ _ (λ _ _ q. q) (λ _ _ _. h)
                              (record_match-AllEvidenced _ _ _ _ _ _ t k))
                          (λ _.
                            Ends-mono _ _ _ _ _ (λ _ _ q. q) (λ _ _ _. h)
                              (record_match-AllEvidenced _ _ _ _ _ _ t k)))

  claim_attempt-AllEvidenced :
      (provider_name : Text) (attempt_id now : ℕ)
      → Ends
          (λ _ t. AllEvidenced t)
          (λ _ t. AllEvidenced t)
          (claim_attempt provider_name attempt_id now s)
  unfolding claim_attempt
  claim_attempt-AllEvidenced provider_name attempt_id now = Ends-atomic _ s (
      then_read _ _ _ s (locked_attempt-reads attempt_id s) (λ _. h)
        λ a found.
          let e = first-All IsEvidenced _ s.attempts a h found in
          then_raise_if _ _ _ s (λ _. h)
            λ _.
              Ends-branch _ _ _ s
                (λ _.
                  then_read _ _ _ s (verified_outcome-reads a s) (λ _. h) λ out _. Ends-pure _ s h)
                λ fresh.
                  then_raise_if _ _ _ s (λ _. h)
                    λ _.
                      then_raise_if _ _ _ s (λ _. h)
                        λ _.
                          then_raise_if _ _ _ s (λ _. h)
                            λ _.
                              Ends-bind (λ _ t. AllEvidenced t) _ _ s
                                (Ends-mono _ _ _ _ _ (λ _ _ k. k) (λ _ _ _. h)
                                  (save_attempt-AllEvidenced _ s
                                    (record {
                                      verified_dated = sym fresh ∙ e.verified_dated;
                                      exact = e.exact;
                                    })
                                    h))
                                λ _ t k. Ends-pure _ t k)

  refuse_callback-AllEvidenced :
      (row : PaymentAttempt) (now : ℕ)
      → IsEvidenced row
      → is_verified row.status ≡ false
      → Ends (λ _ t. AllEvidenced t) (λ _ _. Unit {0}) (refuse_callback row now s)
  unfolding refuse_callback
  refuse_callback-AllEvidenced row now e fresh =
      Ends-branch _ _ _ s
        (λ _.
          Ends-bind (λ _ t. AllEvidenced t) _ _ s
            (save_attempt-AllEvidenced _ s
              (record { verified_dated = sym fresh ∙ e.verified_dated; exact = e.exact }) h)
            λ _ t k. Ends-pure _ t k)
        (λ _. Ends-pure _ s h)

conclude_verification-AllEvidenced :
    (uuid4 attempt_id : ℕ) (reply : Reply ProviderVerifyResult) (later : ℕ) (s : Db)
    → AllEvidenced s
    → Ends
        (λ _ t. AllEvidenced t)
        (λ _ t. AllEvidenced t)
        (conclude_verification uuid4 attempt_id reply later s)
unfolding conclude_verification apply_verified_result
conclude_verification-AllEvidenced uuid4 attempt_id (failed message) later s h =
    Ends-bind _ _ _ s (record_provider_error-AllEvidenced s h uuid4 attempt_id message later)
      λ _ t k. Ends-raise _ t k
conclude_verification-AllEvidenced uuid4 attempt_id crashed later s h = Ends-raise _ s h
conclude_verification-AllEvidenced uuid4 attempt_id (answered result) later s h =
    Ends-bind _ _ _ s (store_truth-AllEvidenced s h attempt_id result later)
      λ truth t k. reconcile_order-AllEvidenced t k uuid4 attempt_id result truth later

-- A verification keeps the attempts evidenced, whatever the provider answers and however it ends.
pub verify_attempt-AllEvidenced :
    (provider : PaymentProvider) (uuid4 attempt_id now later : ℕ) (s : Db)
    → AllEvidenced s
    → Ends
        (λ _ t. AllEvidenced t)
        (λ _ t. AllEvidenced t)
        (verify_attempt provider uuid4 attempt_id now later s)
unfolding verify_attempt
verify_attempt-AllEvidenced provider uuid4 attempt_id now later s h =
    Ends-bind _ _ _ s (claim_attempt-AllEvidenced s h provider.name attempt_id now)
      λ claim t k. asked claim t k
  where
    asked :
        (claim : Claim) (t : Db)
        → AllEvidenced t
        → Ends
            (λ _ t. AllEvidenced t)
            (λ _ t. AllEvidenced t)
            (ask_provider provider uuid4 attempt_id claim later t)
    asked (answered_before outcome) t k = unfold ask_provider in Ends-pure _ t k
    asked (ask amount_rial authority) t k =
        unfold ask_provider in conclude_verification-AllEvidenced uuid4 attempt_id _ later t k

take_callback-AllEvidenced :
    (provider_name authority callback_status : Text) (now : ℕ) (s : Db)
    → AllEvidenced s
    → Ends
        (λ _ t. AllEvidenced t)
        (λ _ t. AllEvidenced t)
        (take_callback provider_name authority callback_status now s)
unfolding take_callback
take_callback-AllEvidenced provider_name authority callback_status now s h = Ends-atomic _ s (
    then_gets _ _ s (
      then_or_raise _ _ _ s (λ _. h)
        λ a found.
          let e = first-All IsEvidenced _ s.attempts a h found in
          let kept : IsEvidenced (counted a callback_status now) = record {
            verified_dated = e.verified_dated;
            exact = e.exact;
          } in
          Ends-bind (λ _ t. AllEvidenced t) _ _ s
            (Ends-mono _ _ _ _ _ (λ _ _ k. k) (λ _ _ _. h) (save_attempt-AllEvidenced _ s kept h))
            λ _ t k.
              Ends-branch _ _ _ t
                (λ _.
                  then_read _ _ _ t (verified_outcome-reads _ t) (λ _. h) λ out _. Ends-pure _ t k)
                λ fresh.
                  Ends-branch _ _ _ t
                    (λ _.
                      Ends-mono _ _ _ _ _ (λ _ _ q. q) (λ _ _ _. h)
                        (refuse_callback-AllEvidenced t k _ now kept fresh))
                    (λ _. Ends-pure _ t k)))

-- A callback keeps the attempts evidenced, whatever it says, whatever the provider answers and
-- however it ends.
pub process_callback-AllEvidenced :
    (provider : PaymentProvider) (uuid4 : ℕ) (authority callback_status : Text) (now later : ℕ)
    (s : Db)
    → AllEvidenced s
    → Ends
        (λ _ t. AllEvidenced t)
        (λ _ t. AllEvidenced t)
        (process_callback provider uuid4 authority callback_status now later s)
unfolding process_callback
process_callback-AllEvidenced provider uuid4 authority callback_status now later s h =
    Ends-bind _ _ _ s (take_callback-AllEvidenced provider.name authority callback_status now s h)
      λ callback t k. followed callback t k
  where
    followed :
        (callback : Callback) (t : Db)
        → AllEvidenced t
        → Ends
            (λ _ t. AllEvidenced t)
            (λ _ t. AllEvidenced t)
            (follow_callback provider uuid4 callback now later t)
    followed (settled outcome) t k = unfold follow_callback in Ends-pure _ t k
    followed (verify attempt_id) t k =
        unfold follow_callback in
        verify_attempt-AllEvidenced provider uuid4 attempt_id now later t k
