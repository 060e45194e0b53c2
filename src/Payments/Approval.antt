-- ===== src/Payments/Approval.antt =====
-- What a verification with the Zarinpal client rests on: apps/payments/providers/zarinpal.py called by
-- apps/payments/services.py.
use visio_backend.Prelude.{ℕ, ◌≡◌, ◌⊎◌, inl, inr, ap, Text, Ends, Ends-mono}
use visio_backend.Database.{Db}
use visio_backend.Payments.Provider.{Reply}
use visio_backend.Payments.Zarinpal.{
  ProviderFailure, Environment, ZarinpalClient, Attempted, done, fails, escapes, reply_of,
  zarinpal_provider,
}
use visio_backend.Payments.Verification.{verify_attempt}
use visio_backend.Payments.Safety.Authority.{SameOrders, Warranted, verify_attempt-Warranted}
use visio_backend.Payments.Approvals.{Approved, verify_payment-Approved}

reply_of-answered :
    {A : Type 0} (str : ProviderFailure → Text) (m : Attempted A) (a : A)
    → reply_of str m ≡ Reply.answered a
    → m ≡ done a
reply_of-answered str (done b) a h =
    ap (λ x. done x)
      (ap (λ y. elim y [ Reply.answered x ↦ x | Reply.failed _ ↦ b | Reply.crashed ↦ b ]) h)
reply_of-answered str (fails x) a h = absurd (cc)
reply_of-answered str escapes a h = absurd (cc)

-- A verification with the Zarinpal client leaves every order as it is, or exactly the order of the
-- attempt goes from pending to confirmed, its total in rials being the attempt's amount, after the
-- verification service of Zarinpal (the sandbox's or the live one, as the client is set) was posted
-- an object of the merchant id, that amount and the stored authority, without an authorization, and
-- answered with a JSON object whose data have the code 100 or 101 and, in ref_id, a value that reads
-- as a text that is not empty. Where it raises, no order is changed.
pub verify_attempt-Approved :
    (env : Environment) (client : ZarinpalClient) (str : ProviderFailure → Text)
    (callback_url : Text) (describe : ℕ → Text) (uuid4 attempt_id now later : ℕ) (s : Db)
    → Ends
        (λ _ t.
          SameOrders s t
          ⊎ ((w : Warranted
                (zarinpal_provider env client str callback_url describe)
                attempt_id
                later
                s
                t)
              × Approved env client w.attempt.amount_rial w.attempt.provider_authority w.result))
        (λ _ t. SameOrders s t)
        (verify_attempt
          (zarinpal_provider env client str callback_url describe)
          uuid4
          attempt_id
          now
          later
          s)
verify_attempt-Approved env client str callback_url describe uuid4 attempt_id now later s =
    Ends-mono _ _ _ _ _ (λ _ t k. approved t k) (λ _ _ k. k)
      (verify_attempt-Warranted (zarinpal_provider env client str callback_url describe) uuid4
        attempt_id now later s)
  where
    approved :
        (t : Db)
        → SameOrders s t
          ⊎ Warranted (zarinpal_provider env client str callback_url describe) attempt_id later s t
        → SameOrders s t
          ⊎ ((w : Warranted
                (zarinpal_provider env client str callback_url describe)
                attempt_id
                later
                s
                t)
              × Approved env client w.attempt.amount_rial w.attempt.provider_authority w.result)
    approved t (inl same) = inl same
    approved t (inr w) = inr (
      w,
      verify_payment-Approved env client w.attempt.amount_rial w.attempt.provider_authority w.result
          (reply_of-answered str _ w.result w.answer),
    )
