-- ===== src/Payments/Rows.antt =====
-- Reading and writing payment attempts, with the constraints of apps/payments/models.py and the
-- `post_save` receiver of apps/operations/signals.py.
use visio_backend.Prelude.{
  ℕ, Bool, true, false, not, ◌&&◌, ◌||◌, Option, none, some, List, [], ◌∷◌, ltb, ◌==◌, text_eq,
  strip, is_empty, first, rows, save, create, order_by, Action, pure, gets, or_raise, branch,
  modify, raise_if, ◌>>=◌, ◌>>◌, does_not_exist, integrity_error, payment_not_found,
}
use visio_backend.Database.{Db}
use visio_backend.Database.Accounts.{User}
use visio_backend.Database.Orders.{Order}
use visio_backend.Database.Payments.{
  PaymentStatus, PaymentAttempt, ReconciliationStatus, Reconciliation,
}
use visio_backend.Database.Operations.{payment_verified}
use visio_backend.Operations.Notifications.{queue_notification}
use visio_backend.Orders.Lifecycle.{find_order}

-- the statuses of `payments_one_active_attempt_per_order` and of `_active_attempt_for_order`
abbrev pub is_active : PaymentStatus → Bool
is_active PaymentStatus.requesting = true
is_active PaymentStatus.pending = true
is_active PaymentStatus.verifying = true
is_active PaymentStatus.verified = true
is_active _ = false

abbrev pub is_verified : PaymentStatus → Bool
is_verified PaymentStatus.verified = true
is_verified _ = false

abbrev pub find_attempt : ℕ → Db → Option PaymentAttempt
find_attempt i db = first (λ a. a.id == i) db.attempts

-- The unique constraints: `payments_order_request_key_unique`,
-- `payments_provider_authority_unique` and `payments_one_active_attempt_per_order`.
abbrev pub clashes : PaymentAttempt → PaymentAttempt → Bool
clashes row other =
    not (other.id == row.id)
    && ((other.order_id == row.order_id && other.idempotency_key == row.idempotency_key)
        || ((text_eq other.provider row.provider
              && (text_eq other.provider_authority row.provider_authority
                  && not (is_empty row.provider_authority)))
            || (other.order_id == row.order_id
                && (is_active other.status && is_active row.status))))

abbrev pub is_some : {A : Type 0} → Option A → Bool
is_some none = false
is_some (some _) = true

-- `schedule_verified_payment_notification`
unfoldable pub schedule_verified_payment_notification : PaymentAttempt → Action Db Unit
schedule_verified_payment_notification row = branch (not (is_verified row.status)) (pure tt) do
  order ← or_raise (← gets (find_order row.order_id)) does_not_exist
  branch (is_empty (strip order.customer_snapshot.email)) (pure tt) do
    queue_notification (payment_verified row.id) (strip order.customer_snapshot.email)
        order.public_id
    pure tt

-- `attempt.save(...)`
unfoldable pub save_attempt : PaymentAttempt → Action Db Unit
save_attempt row = do
  raise_if (is_some (← gets (λ db. first (clashes row) db.attempts))) integrity_error
  modify (λ db. record db { attempts = save (λ a. a.id) row db.attempts })
  schedule_verified_payment_notification row

-- `PaymentAttempt.objects.create(...)`
unfoldable pub create_attempt : PaymentAttempt → Action Db Unit
create_attempt row = do
  raise_if (is_some (← gets (λ db. first (clashes row) db.attempts))) integrity_error
  modify (λ db. record db { attempts = create row db.attempts })
  schedule_verified_payment_notification row

-- `PaymentReconciliation.objects.create(...)`
unfoldable pub create_reconciliation : Reconciliation → Action Db Unit
create_reconciliation row =
    modify (λ db. record db { reconciliations = create row db.reconciliations })

-- `PaymentAttempt.objects.select_for_update().get(pk=attempt_id)`
unfoldable pub locked_attempt : ℕ → Action Db PaymentAttempt
locked_attempt attempt_id = do or_raise (← gets (find_attempt attempt_id)) does_not_exist

unfoldable pub locked_owned_order : User → ℕ → Action Db Order
locked_owned_order user public_id = do
  or_raise (← gets (λ db. first (λ o. o.user_id == user.id && o.public_id == public_id) db.orders))
      payment_not_found

-- `.order_by("-checked_at", "id")`
abbrev latest_first : Reconciliation → Reconciliation → Bool
latest_first a b = ltb b.checked_at a.checked_at || (a.checked_at == b.checked_at && ltb a.id b.id)

abbrev head? : {A : Type 0} → List A → Option A
head? [] = none
head? (x ∷ _) = some x

abbrev is_mismatch : Option Reconciliation → Bool
is_mismatch none = false
is_mismatch (some r) = elim r.status [ ReconciliationStatus.mismatch ↦ true | _ ↦ false ]

-- the test of `_verified_outcome`
unfoldable pub has_mismatch : ℕ → Db → Bool
has_mismatch attempt_id db =
    is_mismatch
      (head? (order_by latest_first (rows (λ r. r.attempt_id == attempt_id) db.reconciliations)))
