-- ===== src/Payments/Safety/Truth.antt =====
-- Whether the provider's word survives: what `_apply_verified_result` leaves of it, and the one case
-- in which the database refuses to store it.
use mathlib.Core.Bool.{false≢true}
use mathlib.Core.Option.{some-injective}
use visio_backend.Prelude.{
  ℕ, ◌≡◌, ◌≢◌, refl, sym, ◌∙◌, ap, subst, Bool, true, false, ◌==◌, ◌⊎◌, inl, inr, some, List, [],
  ◌∷◌, arith, first-test, ==→≡, first-save_self, first, Bool-cases, ◌>>=◌, Ends, Ends-mono,
  Ends-atomic, Ends-pure, Ends-branch, Ends-bind, Ends-catch, then_gets, then_raise_if, then_read,
}
use visio_backend.Database.{Db}
use visio_backend.Database.Payments.{PaymentStatus, PaymentAttempt, ReconciliationStatus}
use visio_backend.Orders.Lifecycle.Frame.{confirm_order-frame, attempts-ConfirmFrame}
use visio_backend.Payments.Provider.{ProviderVerifyResult}
use visio_backend.Payments.Rows.{
  is_active, is_verified, is_some, clashes, find_attempt, save_attempt, create_reconciliation,
}
use visio_backend.Payments.Verification.{
  Truth, known, stored, verified_row, store_truth, record_match, reconcile_order,
  apply_verified_result,
}
use visio_backend.Payments.Safety.Writes.{
  save_attempt-saves, locked_attempt-reads, get_order-reads, verified_outcome-reads,
}

-- The attempt is stored as verified.
abbrev pub IsKnown : ℕ → Db → Type 0
IsKnown attempt_id t =
    (row : PaymentAttempt) × (find_attempt attempt_id t ≡ some row)
    × (row.status ≡ PaymentStatus.verified)

abbrev SameAttempts : Db → Db → Type 0
SameAttempts s t = t.attempts ≡ s.attempts

IsKnown-same : (i : ℕ) (s t : Db) → SameAttempts s t → IsKnown i s → IsKnown i t
IsKnown-same i s t same (row, found, is) = (
  row,
  subst (λ (xs : List PaymentAttempt). first (λ a. a.id == i) xs ≡ some row) (sym same) found,
  is,
)

verified_of_test :
    (status : PaymentStatus) → is_verified status ≡ true → status ≡ PaymentStatus.verified
verified_of_test status h = ground arith

store_truth-IsKnown :
    (attempt_id : ℕ) (result : ProviderVerifyResult) (now : ℕ) (s : Db)
    → Ends (λ _ t. IsKnown attempt_id t) (λ _ t. t ≡ s) (store_truth attempt_id result now s)
unfolding store_truth
store_truth-IsKnown attempt_id result now s = Ends-atomic _ s (
    then_read _ _ _ s (locked_attempt-reads attempt_id s) (λ _. refl)
      λ a found.
        Ends-branch _ _ _ s
          (λ is.
            then_read _ _ _ s (verified_outcome-reads a s) (λ _. refl)
              λ out _. Ends-pure _ s (a, found, verified_of_test a.status is))
          λ fresh.
            then_read _ _ _ s (get_order-reads a.order_id s) (λ _. refl)
              λ order _.
                Ends-bind _ _ _ s
                  (Ends-mono _ _ _ _ _ (λ _ _ k. k) (λ _ _ _. refl) (save_attempt-saves _ s))
                  λ _ t is. Ends-pure _ t (
                    verified_row a result now,
                    ap (λ (d : Db). first (λ (x : PaymentAttempt). x.id == attempt_id) d.attempts)
                          is
                        ∙ first-save_self (λ (x : PaymentAttempt). x.id) attempt_id _ s.attempts
                            found
                            (==→≡ _ _ (
                              first-test (λ (x : PaymentAttempt). x.id == attempt_id) s.attempts a
                                found)),
                    refl,
                  ))

record_match-SameAttempts :
    (uuid4 : ℕ) (attempt : PaymentAttempt) (result : ProviderVerifyResult)
    (status : ReconciliationStatus) (confirmed : Bool) (now : ℕ) (s : Db)
    → Ends
        (λ _ t. SameAttempts s t)
        (λ _ _. Unit {0})
        (record_match uuid4 attempt result status confirmed now s)
unfolding record_match create_reconciliation ◌>>=◌
record_match-SameAttempts uuid4 attempt result status confirmed now s = record { at = refl }

reconcile_order-SameAttempts :
    (uuid4 attempt_id : ℕ) (result : ProviderVerifyResult) (truth : Truth) (now : ℕ) (s : Db)
    → Ends
        (λ _ t. SameAttempts s t)
        (λ _ t. SameAttempts s t)
        (reconcile_order uuid4 attempt_id result truth now s)
unfolding reconcile_order
reconcile_order-SameAttempts uuid4 attempt_id result (known outcome) now s = Ends-pure _ s refl
reconcile_order-SameAttempts uuid4 attempt_id result (stored order_id matches) now s =
    Ends-atomic _ s (
      then_read _ _ _ s (locked_attempt-reads attempt_id s) (λ _. refl)
        λ a _.
          then_read _ _ _ s (get_order-reads order_id s) (λ _. refl)
            λ order _.
              Ends-branch _ _ _ s (λ _. recorded a ReconciliationStatus.mismatch false s refl)
                λ _.
                  Ends-bind (λ _ t. SameAttempts s t) _ _ s
                    (Ends-catch (λ _ t. SameAttempts s t) _ _ _ s
                      (Ends-bind (λ _ t. SameAttempts s t) _ _ s
                        (Ends-mono _ _ _ _ _ (λ o t k. attempts-ConfirmFrame order.id now s o t k)
                          (λ _ t same. ap (λ (d : Db). d.attempts) same)
                          (confirm_order-frame order.id now s))
                        λ _ t k. Ends-pure _ t k)
                      (λ _ t k _. Ends-pure _ t k) (λ _ _ _ _. refl))
                    λ confirmed t k.
                      Ends-branch _ _ _ t (λ _. recorded a ReconciliationStatus.matched true t k)
                        (λ _. recorded a ReconciliationStatus.mismatch false t k))
  where
    recorded :
        (attempt : PaymentAttempt) (status : ReconciliationStatus) (confirmed : Bool) (t : Db)
        → SameAttempts s t
        → Ends
            (λ _ u. SameAttempts s u)
            (λ _ _. SameAttempts s s)
            (record_match uuid4 attempt result status confirmed now t)
    recorded attempt status confirmed t same =
        Ends-mono _ _ _ _ _ (λ _ _ k. k ∙ same) (λ _ _ _. refl)
          (record_match-SameAttempts _ _ _ _ _ _ t)

-- Once the provider has answered, the attempt is stored as verified, whether the order can be
-- confirmed or not, and also if the second block raises; the only other way to end is a raise that
-- has written nothing.
pub apply_verified_result-IsKnown :
    (uuid4 attempt_id : ℕ) (result : ProviderVerifyResult) (now : ℕ) (s : Db)
    → Ends
        (λ _ t. IsKnown attempt_id t)
        (λ _ t. IsKnown attempt_id t ⊎ (t ≡ s))
        (apply_verified_result uuid4 attempt_id result now s)
unfolding apply_verified_result
apply_verified_result-IsKnown uuid4 attempt_id result now s =
    Ends-bind _ _ _ s
      (Ends-mono _ _ _ _ _ (λ _ _ k. k) (λ _ _ same. inr same)
        (store_truth-IsKnown attempt_id result now s))
      λ truth t k.
        Ends-mono _ _ _ _ _ (λ _ u same. IsKnown-same attempt_id t u same k)
          (λ _ u same. inl (IsKnown-same attempt_id t u same k))
          (reconcile_order-SameAttempts uuid4 attempt_id result truth now t)

first-hit :
    (p q : PaymentAttempt → Bool) (xs : List PaymentAttempt) (a : PaymentAttempt)
    → first p xs ≡ some a
    → q a ≡ true
    → is_some (first q xs) ≡ true
first-hit p q [] a found h = absurd (cc)
first-hit p q (x ∷ xs) a found h = elim (Bool-cases (p x)) [
  | inl hit ↦ let same : x ≡ a = some-injective _ _ (rw hit at found) in rw (ap q same ∙ h) refl
  | inr miss ↦
      let later = first-hit p q xs a (rw miss at found) h in
      elim (Bool-cases (q x)) [ inl here ↦ rw here refl | inr not_here ↦ rw not_here later ]
]

active_clashes :
    (a other : PaymentAttempt) (result : ProviderVerifyResult) (now : ℕ)
    → other.id ≢ a.id
    → other.order_id ≡ a.order_id
    → is_active other.status ≡ true
    → clashes (verified_row a result now) other ≡ true
active_clashes a other result now apart same active = ground arith

-- While an attempt that is not verified has another active attempt of its order beside it, the
-- constraint of one active attempt refuses the verified row: recording the provider's answer
-- raises and leaves everything as it was.
pub apply_verified_result-refused :
    (uuid4 : ℕ) (result : ProviderVerifyResult) (now : ℕ) (s : Db) (a other : PaymentAttempt)
    → find_attempt a.id s ≡ some a
    → is_verified a.status ≡ false
    → find_attempt other.id s ≡ some other
    → other.id ≢ a.id
    → other.order_id ≡ a.order_id
    → is_active other.status ≡ true
    → Ends (λ _ _. ⊥) (λ _ t. t ≡ s) (apply_verified_result uuid4 a.id result now s)
unfolding apply_verified_result store_truth save_attempt
apply_verified_result-refused uuid4 result now s a other found fresh found' apart same active =
    Ends-bind (λ _ _. ⊥) _ _ s
      (Ends-atomic _ s (
        then_read _ _ _ s (locked_attempt-reads a.id s) (λ _. refl)
          λ a' again.
            let it : a' ≡ a = some-injective _ _ (sym again ∙ found) in
            Ends-branch _ _ _ s (λ is. absurd (cc))
              λ _.
                then_read _ _ _ s (get_order-reads a'.order_id s) (λ _. refl)
                  λ order _.
                    Ends-bind (λ _ _. ⊥) _ _ s
                      (then_gets _ _ s (
                        then_raise_if _ _ _ s (λ _. refl)
                          λ free.
                            let taken : is_some
                                  (first (clashes (verified_row a' result now)) s.attempts)
                                ≡ true =
                              first-hit _ _ s.attempts other found' (
                                active_clashes a' other result now
                                  (λ e. apart (e ∙ ap (λ (x : PaymentAttempt). x.id) it))
                                  (same ∙ sym (ap (λ (x : PaymentAttempt). x.order_id) it))
                                  active) in
                            absurd (false≢true (sym free ∙ taken))))
                      λ _ _ k. absurd k))
      λ _ _ k. absurd k
