-- ===== src/Payments/Safety/Evidence.antt =====
-- The two invariants of the attempt rows that `verify_business_integrity` looks for: an attempt has a
-- time of verification exactly when it is verified, and its rials are ten times its tomans.
use visio_backend.Prelude.{
  ℕ, ◌*◌, ◌≡◌, refl, sym, ◌∙◌, subst, ℤ, pos, Bool, false, ◌==◌, Option, none, some, arith, All,
  All-update, All-create, first-All, Text, Ends, Ends-mono, Ends-atomic, Ends-pure, Ends-raise,
  Ends-branch, Ends-bind, Ends-translate, then_gets, then_or_raise, then_raise_if, then_read,
}
use visio_backend.Database.{Db}
use visio_backend.Database.Accounts.{User}
use visio_backend.Database.Orders.{Order}
use visio_backend.Database.Payments.{PaymentAttempt}
use visio_backend.Payments.Rows.{is_verified, is_some, save_attempt, create_attempt}
use visio_backend.Payments.Provider.{
  PaymentProvider, ProviderRequestResult, Reply, answered, failed, crashed,
}
use visio_backend.Payments.Attempts.{
  amounts, open_attempt, retry_attempt, prepare_existing, prepare_attempt, mark_request_failure,
  record_request_success, conclude_request, start_payment,
}
use visio_backend.Orders.Lifecycle.Transitions.{lock_user-reads}
use visio_backend.Payments.Safety.Writes.{
  save_attempt-saves, create_attempt-creates, locked_attempt-reads, locked_owned_order-reads,
}

pub record IsEvidenced (a : PaymentAttempt) : Type 0 where
  pub verified_dated : is_verified a.status ≡ is_some a.verified_at
  pub exact : a.amount_rial ≡ a.amount_toman * 10

abbrev pub AllEvidenced : Db → Type 0
AllEvidenced db = All IsEvidenced db.attempts

pub save_attempt-AllEvidenced :
    (row : PaymentAttempt) (s : Db)
    → IsEvidenced row
    → AllEvidenced s
    → Ends (λ _ t. AllEvidenced t) (λ _ _. Unit {0}) (save_attempt row s)
save_attempt-AllEvidenced row s e h =
    Ends-mono _ _ _ _ _
      (λ _ t is.
        subst (λ (d : Db). AllEvidenced d) (sym is)
          (All-update IsEvidenced IsEvidenced (λ a. a.id == row.id) (λ _. row) s.attempts
            (λ _ _ _. e) (λ _ k _. k) h))
      (λ _ _ k. k) (save_attempt-saves row s)

create_attempt-AllEvidenced :
    (row : PaymentAttempt) (s : Db)
    → IsEvidenced row
    → AllEvidenced s
    → Ends (λ _ t. AllEvidenced t) (λ _ _. Unit {0}) (create_attempt row s)
create_attempt-AllEvidenced row s e h =
    Ends-mono _ _ _ _ _
      (λ _ t is.
        subst (λ (d : Db). AllEvidenced d) (sym is) (All-create IsEvidenced row s.attempts h e))
      (λ _ _ k. k) (create_attempt-creates row s)

amounts-exact :
    (payable_toman : ℤ) (s : Db)
    → Ends (λ m t. (t ≡ s) × (m.1 ≡ m.0 * 10)) (λ _ t. t ≡ s) (amounts payable_toman s)
unfolding amounts
amounts-exact payable_toman s =
    then_raise_if _ _ _ s (λ _. refl)
      λ _. then_raise_if _ _ _ s (λ _. refl) λ _. Ends-pure _ s (refl, refl)

-- What a prepared attempt is.
abbrev Prepared : PaymentAttempt × Bool → Db → Type 0
Prepared r t = AllEvidenced t

module _ (s : Db) (h : AllEvidenced s) where
  open_attempt-AllEvidenced :
      (uuid4 : ℕ) (order : Order) (idempotency_key : ℕ) (provider_name : Text) (now : ℕ)
      → Ends Prepared
          (λ _ _. Unit {0})
          (open_attempt uuid4 order idempotency_key provider_name now s)
  unfolding open_attempt
  open_attempt-AllEvidenced uuid4 order idempotency_key provider_name now = then_gets _ _ s (
      then_raise_if _ _ _ s (λ _. tt)
        λ _.
          then_read (λ (m : ℕ × ℕ). m.1 ≡ m.0 * 10) _ _ s
            (amounts-exact (pos order.payable_toman) s) (λ _. tt)
            λ m exact.
              Ends-bind (λ _ t. AllEvidenced t) _ _ s
                (Ends-translate _ _ s (
                  create_attempt-AllEvidenced _ s (record { verified_dated = refl; exact = exact })
                    h))
                λ _ t k. Ends-pure _ t k)

  retry_attempt-AllEvidenced :
      (existing : PaymentAttempt) (now : ℕ)
      → IsEvidenced existing
      → is_verified existing.status ≡ false
      → Ends Prepared (λ _ _. Unit {0}) (retry_attempt existing now s)
  unfolding retry_attempt
  retry_attempt-AllEvidenced existing now e fresh =
      Ends-branch _ _ _ s (λ _. Ends-pure _ s h)
        λ _.
          Ends-bind (λ _ t. AllEvidenced t) _ _ s
            (save_attempt-AllEvidenced _ s
              (record { verified_dated = sym fresh ∙ e.verified_dated; exact = e.exact }) h)
            λ _ t k. Ends-pure _ t k

  prepare_existing-AllEvidenced :
      (found : Option PaymentAttempt) (uuid4 : ℕ) (order : Order) (idempotency_key : ℕ)
      (provider_name : Text) (now : ℕ)
      → ((a : PaymentAttempt) → found ≡ some a → IsEvidenced a)
      → Ends Prepared
          (λ _ _. Unit {0})
          (prepare_existing found uuid4 order idempotency_key provider_name now s)
  unfolding prepare_existing
  prepare_existing-AllEvidenced none uuid4 order idempotency_key provider_name now e =
      then_raise_if _ _ _ s (λ _. tt)
        λ _. open_attempt-AllEvidenced uuid4 order idempotency_key provider_name now
  prepare_existing-AllEvidenced (some existing) uuid4 order idempotency_key provider_name now e =
      then_raise_if _ _ _ s (λ _. tt)
        λ _.
          Ends-branch _ _ _ s (λ _. Ends-pure _ s h)
            λ fresh.
              then_raise_if _ _ _ s (λ _. tt)
                λ _.
                  then_raise_if _ _ _ s (λ _. tt)
                    λ _. retry_attempt-AllEvidenced existing now (e existing refl) fresh

  prepare_attempt-AllEvidenced :
      (uuid4 : ℕ) (user : User) (order_public_id idempotency_key : ℕ) (provider_name : Text)
      (now : ℕ)
      → Ends Prepared
          (λ _ t. AllEvidenced t)
          (prepare_attempt uuid4 user order_public_id idempotency_key provider_name now s)
  unfolding prepare_attempt
  prepare_attempt-AllEvidenced uuid4 user order_public_id idempotency_key provider_name now =
      Ends-atomic _ s (
        then_read (λ _. Unit {0}) _ _ s (lock_user-reads user s) (λ _. h)
          λ _ _.
            then_read (λ _. Unit {0}) _ _ s (locked_owned_order-reads user order_public_id s)
              (λ _. h)
              λ order _. then_gets _ _ s (
                Ends-mono _ _ _ _ _ (λ _ _ k. k) (λ _ _ _. h)
                  (prepare_existing-AllEvidenced _ uuid4 order idempotency_key provider_name now
                    λ a found. first-All IsEvidenced _ s.attempts a h found)))

  mark_request_failure-AllEvidenced :
      (attempt_id : ℕ) (message : Text) (now : ℕ)
      → Ends
          (λ _ t. AllEvidenced t)
          (λ _ t. AllEvidenced t)
          (mark_request_failure attempt_id message now s)
  unfolding mark_request_failure
  mark_request_failure-AllEvidenced attempt_id message now = Ends-atomic _ s (
      then_read _ _ _ s (locked_attempt-reads attempt_id s) (λ _. h)
        λ a found.
          let e = first-All IsEvidenced _ s.attempts a h found in
          Ends-branch _ _ _ s (λ _. Ends-pure _ s h)
            λ open_still.
              Ends-mono _ _ _ _ _ (λ _ _ k. k) (λ _ _ _. h)
                (save_attempt-AllEvidenced _ s
                  (record { verified_dated = ground (arith, e.verified_dated); exact = e.exact })
                  h))

  record_request_success-AllEvidenced :
      (attempt_id : ℕ) (result : ProviderRequestResult) (now : ℕ)
      → Ends
          (λ _ t. AllEvidenced t)
          (λ _ t. AllEvidenced t)
          (record_request_success attempt_id result now s)
  unfolding record_request_success
  record_request_success-AllEvidenced attempt_id result now = Ends-atomic _ s (
      then_read _ _ _ s (locked_attempt-reads attempt_id s) (λ _. h)
        λ a found.
          let e = first-All IsEvidenced _ s.attempts a h found in
          Ends-branch _ _ _ s (λ _. Ends-pure _ s h)
            λ open_still.
              Ends-bind (λ _ t. AllEvidenced t) _ _ s
                (Ends-mono _ _ _ _ _ (λ _ _ k. k) (λ _ _ _. h)
                  (save_attempt-AllEvidenced _ s
                    (record { verified_dated = ground (arith, e.verified_dated); exact = e.exact })
                    h))
                λ _ t k. Ends-pure _ t k)

conclude_request-AllEvidenced :
    (attempt : PaymentAttempt) (created : Bool) (reply : Reply ProviderRequestResult) (later : ℕ)
    (s : Db)
    → AllEvidenced s
    → Ends
        (λ _ t. AllEvidenced t)
        (λ _ t. AllEvidenced t)
        (conclude_request attempt created reply later s)
unfolding conclude_request
conclude_request-AllEvidenced attempt created (failed message) later s h =
    Ends-bind _ _ _ s (mark_request_failure-AllEvidenced s h attempt.id message later)
      λ _ t k. Ends-raise _ t k
conclude_request-AllEvidenced attempt created crashed later s h = Ends-raise _ s h
conclude_request-AllEvidenced attempt created (answered result) later s h =
    Ends-bind _ _ _ s (record_request_success-AllEvidenced s h attempt.id result later)
      λ _ t k. Ends-pure _ t k

-- Starting a payment keeps the attempts evidenced (a time of verification exactly on the verified,
-- rials ten times tomans), whatever the provider answers and however it ends.
pub start_payment-AllEvidenced :
    (provider : PaymentProvider) (uuid4 : ℕ) (user : User)
    (order_public_id idempotency_key now later : ℕ) (s : Db)
    → AllEvidenced s
    → Ends
        (λ _ t. AllEvidenced t)
        (λ _ t. AllEvidenced t)
        (start_payment provider uuid4 user order_public_id idempotency_key now later s)
unfolding start_payment
start_payment-AllEvidenced provider uuid4 user order_public_id idempotency_key now later s h =
    Ends-bind _ _ _ s
      (prepare_attempt-AllEvidenced s h uuid4 user order_public_id idempotency_key provider.name
        now)
      λ (attempt, created) t k.
        Ends-branch _ _ _ t (λ _. Ends-pure _ t k)
          λ _.
            Ends-branch _ _ _ t (λ _. Ends-pure _ t k)
              λ _. then_gets _ _ t (
                then_or_raise _ _ _ t (λ _. k)
                  λ order _. then_gets _ _ t (
                    then_or_raise _ _ _ t (λ _. k)
                      λ email _. conclude_request-AllEvidenced _ _ _ later t k))
