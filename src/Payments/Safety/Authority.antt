-- ===== src/Payments/Safety/Authority.antt =====
-- Only the provider's answer confirms an order, and only for its exact amount.
use mathlib.Core.Option.{some-injective}
use visio_backend.Prelude.{
  ℕ, ◌*◌, ◌≡◌, refl, sym, ◌∙◌, ap, subst, Bool, true, ◌==◌, ◌⊎◌, inl, inr, some, List, arith,
  first-test, ==→≡, first-save_self, save, first, Text, ◌>>=◌, Ends, Ends-mono, Ends-atomic,
  Ends-pure, Ends-modify, Ends-raise, Ends-branch, Ends-bind, Ends-catch, then_raise_if, then_read,
}
use visio_backend.Database.{Db}
use visio_backend.Database.Orders.{OrderStatus, Order}
use visio_backend.Database.Payments.{PaymentAttempt, ReconciliationStatus}
use visio_backend.Orders.Lifecycle.{find_order, confirm_order_after_verified_payment}
use visio_backend.Orders.Lifecycle.Parts.{in_status}
use visio_backend.Orders.Lifecycle.Frame.{confirmed_orders, ConfirmFrame, confirm_order-frame}
use visio_backend.Payments.Provider.{
  PaymentProvider, ProviderVerifyResult, Reply, answered, failed, crashed,
}
use visio_backend.Payments.Rows.{find_attempt, create_reconciliation}
use visio_backend.Payments.Verification.{
  Truth, known, stored, Claim, answered_before, ask, record_provider_error, store_truth,
  record_match, reconcile_order, apply_verified_result, claim_attempt, conclude_verification,
  ask_provider, verify_attempt,
}
use visio_backend.Payments.Safety.Writes.{
  save_attempt-saves, locked_attempt-reads, get_order-reads, verified_outcome-reads,
}

-- The order `o` of the key is confirmed at `now`, and no other is touched.
abbrev pub ConfirmsOrder : ℕ → ℕ → Db → Order → Db → Type 0
ConfirmsOrder order_id now s o t =
    (find_order order_id s ≡ some o)
    × (o.status ≡ OrderStatus.pending_payment)
    × (t.orders ≡ confirmed_orders o now s)

-- The provider answered for the amount of the attempt, which is that of its order, and the order
-- is confirmed.
pub record Warranted (provider : PaymentProvider) (attempt_id now : ℕ) (s t : Db) : Type 0 where
  pub attempt : PaymentAttempt
  pub found : find_attempt attempt_id s ≡ some attempt
  pub result : ProviderVerifyResult
  pub answer :
      provider.verify_payment attempt.amount_rial attempt.provider_authority ≡ answered result
  pub order : Order
  pub amount : attempt.amount_rial ≡ order.payable_toman * 10
  pub confirms : ConfirmsOrder attempt.order_id now s order t

abbrev pub SameOrders : Db → Db → Type 0
SameOrders s t = t.orders ≡ s.orders

-- What a claim has read of the attempt and left of it.
abbrev ClaimPost : ℕ → Db → Claim → Db → Type 0
ClaimPost attempt_id s (answered_before outcome) t = t ≡ s
ClaimPost attempt_id s (ask amount_rial authority) t =
    (a b : PaymentAttempt) × (find_attempt attempt_id s ≡ some a)
    × (find_attempt attempt_id t ≡ some b)
    × (amount_rial ≡ a.amount_rial)
    × (authority ≡ a.provider_authority)
    × (b.amount_rial ≡ a.amount_rial)
    × (b.order_id ≡ a.order_id)
    × SameOrders s t

claim_attempt-ClaimPost :
    (provider_name : Text) (attempt_id now : ℕ) (s : Db)
    → Ends (ClaimPost attempt_id s) (λ _ t. t ≡ s) (claim_attempt provider_name attempt_id now s)
unfolding claim_attempt
claim_attempt-ClaimPost provider_name attempt_id now s = Ends-atomic _ s (
    then_read _ _ _ s (locked_attempt-reads attempt_id s) (λ _. refl)
      λ a found.
        then_raise_if _ _ _ s (λ _. refl)
          λ _.
            Ends-branch _ _ _ s
              (λ _.
                then_read _ _ _ s (verified_outcome-reads a s) (λ _. refl)
                  λ out _. Ends-pure _ s refl)
              λ fresh.
                then_raise_if _ _ _ s (λ _. refl)
                  λ _.
                    then_raise_if _ _ _ s (λ _. refl)
                      λ _.
                        then_raise_if _ _ _ s (λ _. refl)
                          λ _.
                            Ends-bind _ _ _ s
                              (Ends-mono _ _ _ _ _ (λ _ _ k. k) (λ _ _ _. refl)
                                (save_attempt-saves _ s))
                              λ _ t is. Ends-pure _ t (
                                a,
                                _,
                                found,
                                ap
                                      (λ (d : Db).
                                        first (λ (x : PaymentAttempt). x.id == attempt_id)
                                          d.attempts)
                                      is
                                    ∙ first-save_self (λ (x : PaymentAttempt). x.id) attempt_id _
                                        s.attempts found
                                        (==→≡ _ _ (
                                          first-test (λ (x : PaymentAttempt). x.id == attempt_id)
                                            s.attempts a found)),
                                refl,
                                refl,
                                refl,
                                refl,
                                ap (λ (d : Db). d.orders) is,
                              ))

TruthPost : ℕ → Db → Truth → Db → Type 0
TruthPost attempt_id s (known outcome) t = t ≡ s
TruthPost attempt_id s (stored order_id matches) t =
    (b : PaymentAttempt) × (o : Order) × (find_attempt attempt_id s ≡ some b)
    × (find_order b.order_id s ≡ some o)
    × (order_id ≡ b.order_id)
    × (matches ≡ (b.amount_rial == o.payable_toman * 10))
    × SameOrders s t

store_truth-TruthPost :
    (attempt_id : ℕ) (result : ProviderVerifyResult) (now : ℕ) (s : Db)
    → Ends (TruthPost attempt_id s) (λ _ t. t ≡ s) (store_truth attempt_id result now s)
unfolding store_truth TruthPost
store_truth-TruthPost attempt_id result now s = Ends-atomic _ s (
    then_read _ _ _ s (locked_attempt-reads attempt_id s) (λ _. refl)
      λ b found.
        Ends-branch _ _ _ s
          (λ _.
            then_read _ _ _ s (verified_outcome-reads b s) (λ _. refl) λ out _. Ends-pure _ s refl)
          λ fresh.
            then_read _ _ _ s (get_order-reads b.order_id s) (λ _. refl)
              λ o of_order.
                Ends-bind _ _ _ s
                  (Ends-mono _ _ _ _ _ (λ _ _ k. k) (λ _ _ _. refl) (save_attempt-saves _ s))
                  λ _ t is. Ends-pure _ t (
                    b,
                    o,
                    found,
                    of_order,
                    ==→≡ _ _ (first-test (λ (x : Order). x.id == b.order_id) s.orders o of_order),
                    refl,
                    ap (λ (d : Db). d.orders) is,
                  ))

record_match-SameOrders :
    (uuid4 : ℕ) (attempt : PaymentAttempt) (result : ProviderVerifyResult)
    (status : ReconciliationStatus) (confirmed : Bool) (now : ℕ) (s : Db)
    → Ends
        (λ _ t. SameOrders s t)
        (λ _ _. Unit {0})
        (record_match uuid4 attempt result status confirmed now s)
unfolding record_match create_reconciliation ◌>>=◌
record_match-SameOrders uuid4 attempt result status confirmed now s = record { at = refl }

-- What the second block does to the orders.
abbrev ReconcilePost : ℕ → Bool → ℕ → Db → Db → Type 0
ReconcilePost order_id matches now s t =
    SameOrders s t ⊎ ((matches ≡ true) × ((o : Order) × ConfirmsOrder order_id now s o t))

confirm_order-ReconcilePost :
    (order_id now : ℕ) (s : Db)
    → Ends
        (λ _ t. SameOrders s t ⊎ ((o : Order) × ConfirmsOrder order_id now s o t))
        (λ _ t. SameOrders s t)
        (confirm_order_after_verified_payment order_id now s)
confirm_order-ReconcilePost order_id now s =
    Ends-mono _ _ _ _ _ (λ order t frame. confirmed order t frame)
      (λ _ t same. ap (λ (d : Db). d.orders) same) (confirm_order-frame order_id now s)
  where
    confirmed :
        (order : Order) (t : Db)
        → ConfirmFrame order_id now s order t
        → SameOrders s t ⊎ ((o : Order) × ConfirmsOrder order_id now s o t)
    confirmed order t (old, found, inl same) = inl (ap (λ (d : Db). d.orders) same)
    confirmed order t (old, found, inr (was, is)) =
        inr (old, (found, was, ap (λ (d : Db). d.orders) is))

reconcile_order-ReconcilePost :
    (uuid4 attempt_id : ℕ) (result : ProviderVerifyResult) (order_id : ℕ) (matches : Bool) (now : ℕ)
    (s : Db)
    → Ends
        (λ _ t. ReconcilePost order_id matches now s t)
        (λ _ t. SameOrders s t)
        (reconcile_order uuid4 attempt_id result (stored order_id matches) now s)
unfolding reconcile_order
reconcile_order-ReconcilePost uuid4 attempt_id result order_id matches now s = Ends-atomic _ s (
    then_read _ _ _ s (locked_attempt-reads attempt_id s) (λ _. refl)
      λ a _.
        then_read _ _ _ s (get_order-reads order_id s) (λ _. refl)
          λ order found.
            let named =
              ==→≡ _ _ (first-test (λ (x : Order). x.id == order_id) s.orders order found) in
            Ends-branch _ _ _ s
              (λ _.
                Ends-mono _ _ _ _ _ (λ _ _ k. inl k) (λ _ _ _. refl)
                  (record_match-SameOrders _ _ _ _ _ _ s))
              λ right.
                Ends-bind (λ _ t. ReconcilePost order_id matches now s t) _ _ s
                  (Ends-catch (λ _ t. SameOrders s t) _ _ _ s
                    (Ends-bind (λ _ t. ReconcilePost order_id matches now s t) _ _ s
                      (Ends-mono _ _ _ _ _ (λ _ t k. matched order named (ground arith) t k)
                        (λ _ _ k. k) (confirm_order-ReconcilePost order.id now s))
                      λ _ t k. Ends-pure _ t k)
                    (λ _ t k _. Ends-pure _ t (inl k)) (λ _ _ _ _. refl))
                  λ confirmed t k.
                    Ends-branch _ _ _ t (λ _. recorded _ _ _ t k) (λ _. recorded _ _ _ t k))
  where
    matched :
        (order : Order) (named : order.id ≡ order_id) (right : matches ≡ true) (t : Db)
        → SameOrders s t ⊎ ((o : Order) × ConfirmsOrder order.id now s o t)
        → ReconcilePost order_id matches now s t
    matched order named right t (inl same) = inl same
    matched order named right t (inr (o, c)) =
        inr (right, (o, subst (λ i. ConfirmsOrder i now s o t) named c))

    recorded :
        (attempt : PaymentAttempt) (status : ReconciliationStatus) (confirmed : Bool) (t : Db)
        → ReconcilePost order_id matches now s t
        → Ends
            (λ _ u. ReconcilePost order_id matches now s u)
            (λ _ _. SameOrders s s)
            (record_match uuid4 attempt result status confirmed now t)
    recorded attempt status confirmed t (inl same) =
        Ends-mono _ _ _ _ _ (λ _ _ k. inl (k ∙ same)) (λ _ _ _. refl)
          (record_match-SameOrders _ _ _ _ _ _ t)
    recorded attempt status confirmed t (inr (right, (o, c))) =
        Ends-mono _ _ _ _ _ (λ _ _ k. inr (right, (o, (c.0, c.1, k ∙ c.2)))) (λ _ _ _. refl)
          (record_match-SameOrders _ _ _ _ _ _ t)

record_provider_error-SameOrders :
    (uuid4 attempt_id : ℕ) (message : Text) (now : ℕ) (u s : Db)
    → SameOrders s u
    → Ends
        (λ _ t. SameOrders u t)
        (λ _ t. SameOrders s t)
        (record_provider_error uuid4 attempt_id message now u)
unfolding record_provider_error create_reconciliation
record_provider_error-SameOrders uuid4 attempt_id message now u s same = Ends-atomic _ u (
    then_read _ _ _ u (locked_attempt-reads attempt_id u) (λ _. same)
      λ a _.
        Ends-branch _ _ _ u (λ _. Ends-pure _ u refl)
          λ _.
            Ends-bind (λ _ t. SameOrders u t) _ _ u
              (Ends-mono _ _ _ _ _ (λ _ _ is. ap (λ (d : Db). d.orders) is) (λ _ _ _. same)
                (save_attempt-saves _ u))
              λ _ t k. Ends-modify _ t k)

-- From the claim to the conclusion: what confirmed the order, if anything did.
module _ (provider : PaymentProvider) (attempt_id now : ℕ) (s : Db) where
  abbrev VerifyPost : Db → Type 0
  VerifyPost t = SameOrders s t ⊎ Warranted provider attempt_id now s t

  answered-VerifyPost :
      (a b : PaymentAttempt) (uuid4 : ℕ) (result : ProviderVerifyResult) (u : Db)
      → find_attempt attempt_id s ≡ some a
      → find_attempt attempt_id u ≡ some b
      → provider.verify_payment a.amount_rial a.provider_authority ≡ answered result
      → b.amount_rial ≡ a.amount_rial
      → b.order_id ≡ a.order_id
      → SameOrders s u
      → Ends
          (λ _ t. VerifyPost t)
          (λ _ t. SameOrders s t)
          (apply_verified_result uuid4 attempt_id result now u)
  unfolding apply_verified_result TruthPost
  answered-VerifyPost a b uuid4 result u at_s at_u answer same_amount same_order same =
      Ends-bind _ _ _ u
        (Ends-mono _ _ _ _ _ (λ _ _ k. k) (λ _ t is. rw is same)
          (store_truth-TruthPost attempt_id result now u))
        λ truth v k. concluded truth v k
    where
      concluded :
          (truth : Truth) (v : Db)
          → TruthPost attempt_id u truth v
          → Ends
              (λ _ t. VerifyPost t)
              (λ _ t. SameOrders s t)
              (reconcile_order uuid4 attempt_id result truth now v)
      concluded (known outcome) v k = unfold reconcile_order in Ends-pure _ v (inl (rw k same))
      concluded (stored order_id matches) v (b', o, at_u', of_order, named, right, kept) =
          Ends-mono _ _ _ _ _ (λ _ t h. warranted t h) (λ _ t h. h ∙ kept ∙ same)
            (reconcile_order-ReconcilePost uuid4 attempt_id result order_id matches now v)
        where
          warranted : (t : Db) → ReconcilePost order_id matches now v t → VerifyPost t
          warranted t (inl unchanged) = inl (unchanged ∙ kept ∙ same)
          warranted t (inr (is, (o', (found, pending, orders)))) =
              let same_attempt : b' ≡ b = some-injective _ _ (sym at_u' ∙ at_u) in
              let key : order_id ≡ a.order_id =
                named ∙ ap (λ (x : PaymentAttempt). x.order_id) same_attempt ∙ same_order in
              let at_start : find_order order_id s ≡ some o' =
                subst (λ (os : List Order). first (λ x. x.id == order_id) os ≡ some o')
                  (kept ∙ same) found in
              let meant : find_order order_id s ≡ some o =
                subst (λ (os : List Order). first (λ x. x.id == order_id) os ≡ some o) same
                  (subst (λ k. find_order k u ≡ some o) (sym named) of_order) in
              let same_row : o ≡ o' = some-injective _ _ (sym meant ∙ at_start) in
              inr (record {
                attempt = a;
                found = at_s;
                result = result;
                answer = answer;
                order = o';
                amount =
                    sym same_amount
                    ∙ sym (ap (λ (x : PaymentAttempt). x.amount_rial) same_attempt)
                    ∙ ==→≡ _ _ (sym right ∙ is)
                    ∙ ap (λ (x : Order). x.payable_toman * 10) same_row;
                confirms = (
                  subst (λ k. find_order k s ≡ some o') key at_start,
                  pending,
                  orders
                      ∙ ap
                          (λ (os : List Order).
                            save (λ x. x.id) (in_status o' OrderStatus.confirmed now) os)
                          (kept ∙ same),
                );
              })

  asked-VerifyPost :
      (uuid4 : ℕ) (claim : Claim) (u : Db)
      → ClaimPost attempt_id s claim u
      → Ends
          (λ _ t. VerifyPost t)
          (λ _ t. SameOrders s t)
          (ask_provider provider uuid4 attempt_id claim now u)
  unfolding ask_provider
  asked-VerifyPost uuid4 (answered_before outcome) u k = Ends-pure _ u (inl (rw k refl))
  asked-VerifyPost uuid4 (ask amount_rial authority) u
        (a, b, at_s, at_u, amount, token, same_amount, same_order, same) =
      concluded (provider.verify_payment amount_rial authority) refl
    where
      concluded :
          (reply : Reply ProviderVerifyResult)
          → provider.verify_payment amount_rial authority ≡ reply
          → Ends
              (λ _ t. VerifyPost t)
              (λ _ t. SameOrders s t)
              (conclude_verification uuid4 attempt_id reply now u)
      concluded (failed message) answer =
          unfold conclude_verification in
          Ends-bind (λ _ t. SameOrders u t) _ _ u
            (record_provider_error-SameOrders uuid4 attempt_id message now u s same)
            λ _ t k. Ends-raise _ t (k ∙ same)
      concluded crashed answer = unfold conclude_verification in Ends-raise _ u same
      concluded (answered result) answer =
          unfold conclude_verification in
          answered-VerifyPost a b uuid4 result u at_s at_u
            (subst (λ m. provider.verify_payment m a.provider_authority ≡ answered result) amount
              (subst (λ k. provider.verify_payment amount_rial k ≡ answered result) token answer))
            same_amount same_order same

-- A verification leaves every order as it is, or the provider has answered for the stored authority
-- and the attempt's amount, which is that of the order in rials, and exactly that order goes from
-- pending to confirmed. Where it raises, no order is changed.
pub verify_attempt-Warranted :
    (provider : PaymentProvider) (uuid4 attempt_id now later : ℕ) (s : Db)
    → Ends
        (λ _ t. SameOrders s t ⊎ Warranted provider attempt_id later s t)
        (λ _ t. SameOrders s t)
        (verify_attempt provider uuid4 attempt_id now later s)
unfolding verify_attempt
verify_attempt-Warranted provider uuid4 attempt_id now later s =
    Ends-bind _ _ _ s
      (Ends-mono _ _ _ _ _ (λ _ _ k. k) (λ _ t is. ap (λ (d : Db). d.orders) is)
        (claim_attempt-ClaimPost provider.name attempt_id now s))
      λ claim u k. asked-VerifyPost provider attempt_id later s uuid4 claim u k
