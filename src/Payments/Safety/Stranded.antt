-- ===== src/Payments/Safety/Stranded.antt =====
-- An attempt that failed after the provider had issued an authority, and what a retry of it with the
-- same key does.
use mathlib.Core.Option.{some-injective}
use visio_backend.Prelude.{
  ℕ, ◌≡◌, ◌≢◌, refl, sym, ◌∙◌, ap, false, ◌==◌, none, some, arith, first-save_self, first, Error,
  payment_conflict, Ends, Ends-atomic, Ends-pure, Ends-or_raise, Ends-branch, Ends-bind, then_gets,
  then_raise_if,
}
use visio_backend.Database.{Db}
use visio_backend.Database.Payments.{PaymentStatus, PaymentAttempt}
use visio_backend.Payments.Provider.{PaymentProvider}
use visio_backend.Payments.Rows.{find_attempt, locked_attempt}
use visio_backend.Payments.Attempts.{is_underway, retry_attempt}
use visio_backend.Payments.Verification.{claim_attempt, verify_attempt}
use visio_backend.Payments.Safety.Writes.{save_attempt-saves}

-- The attempt is stored as requesting.
abbrev pub IsRequesting : ℕ → Db → Type 0
IsRequesting attempt_id t =
    (row : PaymentAttempt) × (find_attempt attempt_id t ≡ some row)
    × (row.status ≡ PaymentStatus.requesting)

none≢some : {A : Type 0} {a : A} → none ≢ some a
none≢some h = absurd (cc)

locked_attempt-finds :
    {E : Error → Db → Type 0} (i : ℕ) (s : Db) (row : PaymentAttempt)
    → find_attempt i s ≡ some row
    → Ends (λ a t. (t ≡ s) × (a ≡ row)) E (locked_attempt i s)
unfolding locked_attempt
locked_attempt-finds i s row found = then_gets _ _ s (
    Ends-or_raise _ _ s (λ gone. absurd (none≢some (sym gone ∙ found)))
      λ a again. (refl, some-injective _ _ (sym again ∙ found)))

-- No verification of an attempt stored as requesting succeeds: each raises a payment conflict and
-- leaves everything as it was.
pub verify_attempt-requesting :
    (provider : PaymentProvider) (uuid4 attempt_id now later : ℕ) (s : Db)
    → IsRequesting attempt_id s
    → Ends
        (λ _ _. ⊥)
        (λ e t. (t ≡ s) × (e ≡ payment_conflict))
        (verify_attempt provider uuid4 attempt_id now later s)
unfolding verify_attempt claim_attempt
verify_attempt-requesting provider uuid4 attempt_id now later s (row, found, is) =
    Ends-bind (λ _ _. ⊥) _ _ s
      (Ends-atomic _ s (
        Ends-bind (λ a t. (t ≡ s) × (a ≡ row)) _ _ s (locked_attempt-finds attempt_id s row found)
          λ a t k.
            let waits : a.status ≡ PaymentStatus.requesting =
              ap (λ (x : PaymentAttempt). x.status) k.1 ∙ is in
            then_raise_if _ _ _ t (λ _. (refl, refl))
              λ _.
                Ends-branch _ _ _ t (λ done. absurd (ground arith))
                  λ _.
                    then_raise_if _ _ _ t (λ _. (refl, refl))
                      λ _.
                        then_raise_if _ _ _ t (λ _. (refl, refl))
                          λ _.
                            then_raise_if _ _ _ t (λ _. (refl, refl))
                              λ able. absurd (ground arith)))
      λ _ _ k. absurd k

-- A retry of a stored attempt that is not under way, if it returns, stores the attempt as
-- requesting and hands back its authority and redirect as they were; every verification of it
-- after that raises a payment conflict and leaves everything as it is.
pub retry_attempt-strands :
    (provider : PaymentProvider) (existing : PaymentAttempt) (uuid4 now then_now later : ℕ) (s : Db)
    → find_attempt existing.id s ≡ some existing
    → is_underway existing.status ≡ false
    → Ends
        (λ r t.
          (r.0.provider_authority ≡ existing.provider_authority)
          × (r.0.provider_redirect_url ≡ existing.provider_redirect_url)
          × IsRequesting existing.id t
          × Ends
              (λ _ _. ⊥)
              (λ e u. (u ≡ t) × (e ≡ payment_conflict))
              (verify_attempt provider uuid4 existing.id then_now later t))
        (λ _ _. Unit {0})
        (retry_attempt existing now s)
unfolding retry_attempt
retry_attempt-strands provider existing uuid4 now then_now later s found idle =
    Ends-branch _ _ _ s (λ kept. absurd (ground arith))
      λ _. Ends-bind _ _ _ s (save_attempt-saves _ s) λ _ t is.
        let stuck : IsRequesting existing.id t = (
          _,
          ap (λ (d : Db). first (λ (x : PaymentAttempt). x.id == existing.id) d.attempts) is
              ∙ first-save_self (λ (x : PaymentAttempt). x.id) existing.id _ s.attempts found refl,
          refl,
        ) in
        Ends-pure _ t (
          refl,
          refl,
          stuck,
          verify_attempt-requesting provider uuid4 existing.id then_now later t stuck,
        )
