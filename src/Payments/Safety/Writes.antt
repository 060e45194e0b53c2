-- ===== src/Payments/Safety/Writes.antt =====
-- What saving or creating an attempt and the reading steps of apps/payments/services.py change.
use visio_backend.Prelude.{
  ℕ, ◌≡◌, refl, some, List, save, create, Ends, Ends-pure, Ends-branch, Ends-bind, Ends-or_raise,
  then_gets, then_or_raise, then_modify, then_raise_if, then_read,
}
use visio_backend.Database.{Db}
use visio_backend.Database.Accounts.{User}
use visio_backend.Database.Payments.{PaymentAttempt}
use visio_backend.Orders.Lifecycle.Parts.{OutboxOnly, queue_notification-OutboxOnly}
use visio_backend.Orders.Lifecycle.{find_order}
use visio_backend.Payments.Rows.{
  find_attempt, schedule_verified_payment_notification, save_attempt, create_attempt,
  locked_attempt, locked_owned_order,
}
use visio_backend.Payments.Verification.{get_order, verified_outcome}

-- `t` is `s` but for its attempts, which are `attempts`, and its outbox.
abbrev pub AttemptsAre : List PaymentAttempt → Db → Db → Type 0
AttemptsAre attempts s t = t ≡ record s { attempts = attempts; outbox = t.outbox }

abbrev pub saved : PaymentAttempt → Db → List PaymentAttempt
saved row s = save (λ a. a.id) row s.attempts

schedule-OutboxOnly :
    (row : PaymentAttempt) (s : Db)
    → Ends (λ _ t. OutboxOnly s t) (λ _ _. Unit {0}) (schedule_verified_payment_notification row s)
unfolding schedule_verified_payment_notification
schedule-OutboxOnly row s =
    Ends-branch _ _ _ s (λ _. Ends-pure _ s refl)
      λ _. then_gets _ _ s (
        then_or_raise _ _ _ s (λ _. tt)
          λ order _.
            Ends-branch _ _ _ s (λ _. Ends-pure _ s refl)
              λ _.
                Ends-bind (λ _ t. OutboxOnly s t) _ _ s (queue_notification-OutboxOnly _ _ _ s)
                  λ _ t h. Ends-pure _ t h)

pub save_attempt-saves :
    (row : PaymentAttempt) (s : Db)
    → Ends (λ _ t. AttemptsAre (saved row s) s t) (λ _ _. Unit {0}) (save_attempt row s)
unfolding save_attempt
save_attempt-saves row s =
    then_gets _ _ s
      (then_raise_if _ _ _ s (λ _. tt) λ _. then_modify _ _ s (schedule-OutboxOnly row _))

pub create_attempt-creates :
    (row : PaymentAttempt) (s : Db)
    → Ends (λ _ t. AttemptsAre (create row s.attempts) s t) (λ _ _. Unit {0}) (create_attempt row s)
unfolding create_attempt
create_attempt-creates row s =
    then_gets _ _ s
      (then_raise_if _ _ _ s (λ _. tt) λ _. then_modify _ _ s (schedule-OutboxOnly row _))

pub locked_attempt-reads :
    (i : ℕ) (s : Db)
    → Ends (λ a t. (t ≡ s) × (find_attempt i s ≡ some a)) (λ _ t. t ≡ s) (locked_attempt i s)
unfolding locked_attempt
locked_attempt-reads i s =
    then_gets _ _ s (Ends-or_raise _ _ s (λ _. refl) λ _ found. (refl, found))

pub get_order-reads :
    (i : ℕ) (s : Db)
    → Ends (λ o t. (t ≡ s) × (find_order i s ≡ some o)) (λ _ t. t ≡ s) (get_order i s)
unfolding get_order
get_order-reads i s = then_gets _ _ s (Ends-or_raise _ _ s (λ _. refl) λ _ found. (refl, found))

pub verified_outcome-reads :
    (attempt : PaymentAttempt) (s : Db)
    → Ends (λ out t. (t ≡ s) × (out.attempt ≡ attempt)) (λ _ t. t ≡ s) (verified_outcome attempt s)
unfolding verified_outcome
verified_outcome-reads attempt s =
    then_read _ _ _ s (get_order-reads attempt.order_id s) (λ _. refl)
      λ order _. then_gets _ _ s (Ends-pure _ s (refl, refl))

pub locked_owned_order-reads :
    (user : User) (public_id : ℕ) (s : Db)
    → Ends (λ _ t. (t ≡ s) × Unit {0}) (λ _ t. t ≡ s) (locked_owned_order user public_id s)
unfolding locked_owned_order
locked_owned_order-reads user public_id s =
    then_gets _ _ s (Ends-or_raise _ _ s (λ _. refl) λ _ _. (refl, tt))
