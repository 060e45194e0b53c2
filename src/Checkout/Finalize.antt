-- ===== src/Checkout/Finalize.antt =====
-- `finalize_checkout`: what it returns, and what it does with a session that is late.
use mathlib.Core.Option.{some-injective}
use visio_backend.Prelude.{
  ℕ, ◌≤◌, ◌<◌, ◌≡◌, refl, sym, ◌∙◌, ap, arith, true, ◌&&◌, ◌==◌, some, save, first, ◌⊎◌, inl, inr,
  Ends, Ends-mono, Ends-any, Ends-atomic, Ends-pure, Ends-raise, Ends-branch, Ends-bind,
  Ends-modify, then_gets, then_read, then_raise_if,
}
use visio_backend.Database.{Db}
use visio_backend.Database.Accounts.{User}
use visio_backend.Database.Checkout.{SessionStatus, CheckoutSession}
use visio_backend.Orders.Lifecycle.Transitions.{lock_user-reads}
use visio_backend.Checkout.Delivery.{Collation}
use visio_backend.Checkout.Reads.{owned_session-reads}
use visio_backend.Checkout.Readiness.{IsReady, revalidate_fresh-IsReady}
use visio_backend.Checkout.Sessions.{save_session}
use visio_backend.Checkout.Sessions.Finalization.{
  revalidate_ready_boundary, finalize_again, finalize_checkout, is_ready, is_started, has_key,
}

pub save_session-saves :
    (row : CheckoutSession) (s : Db)
    → Ends
        (λ _ t. t ≡ record s { sessions = save (λ x. x.id) row s.sessions })
        (λ _ _. Unit {0})
        (save_session row s)
unfolding save_session
save_session-saves row s =
    then_gets _ _ s (then_raise_if _ _ _ s (λ _. tt) λ _. Ends-modify _ s refl)

pub revalidate_ready_boundary-IsReady :
    (collation : Collation) (user : User) (session : CheckoutSession) (now : ℕ) (s : Db)
    → Ends
        (λ _ t. (t ≡ s) × IsReady collation user session now s)
        (λ _ _. Unit {0})
        (revalidate_ready_boundary collation user session now s)
unfolding revalidate_ready_boundary
revalidate_ready_boundary-IsReady collation user session now s =
    Ends-branch _ _ _ s
      (λ _. Ends-bind (λ _ _. Unit {0}) _ _ s (Ends-any _) λ _ t _. Ends-raise _ t tt)
      (λ fresh.
        Ends-mono _ _ _ _ _ (λ _ _ h. h) (λ _ _ _. tt)
          (revalidate_fresh-IsReady collation user session now s (ground arith)))

-- The row of a session that is ready since `now`.
abbrev pub finalized : CheckoutSession → ℕ → ℕ → CheckoutSession
finalized old key now = record old {
  status = SessionStatus.ready;
  finalization_key = some key;
  finalized_at = some now;
  updated_at = now;
}

-- The session `x` that is returned was ready with this key and is untouched, or was active and is
-- found ready, and is stored as ready with the key.
abbrev pub Finalized : Collation → User → ℕ → ℕ → ℕ → Db → CheckoutSession → Db → Type 0
Finalized collation user checkout_id key now s x t =
    (old : CheckoutSession) × (first (λ y. y.id == checkout_id && y.user_id == user.id) s.sessions
      ≡ some old)
    × (((x ≡ old)
          × (t ≡ s)
          × (is_ready old.status ≡ true)
          × (has_key old.finalization_key key ≡ true)
          × (now < old.expires_at))
        ⊎ (IsReady collation user old now s
            × (is_started old.status ≡ true)
            × (x ≡ finalized old key now)
            × (t ≡ record s { sessions = save (λ y. y.id) x s.sessions })))

finalize_again-Finalized :
    (collation : Collation) (user : User) (checkout_id key now : ℕ) (old : CheckoutSession) (s : Db)
    → first (λ y. y.id == checkout_id && y.user_id == user.id) s.sessions ≡ some old
    → is_ready old.status ≡ true
    → Ends
        (Finalized collation user checkout_id key now s)
        (λ _ _. Unit {0})
        (finalize_again old key now s)
unfolding finalize_again
finalize_again-Finalized collation user checkout_id key now old s found ready =
    Ends-branch _ _ _ s
      (λ _. Ends-bind (λ _ _. Unit {0}) _ _ s (Ends-any _) λ _ t _. Ends-raise _ t tt)
      (λ fresh.
        Ends-branch _ _ _ s
          (λ same. Ends-pure old s (old, found, inl (refl, refl, ready, same, ground arith)))
          (λ _. Ends-raise _ s tt))

-- A finalization that returns gives the user's session of the key back: it was ready with this
-- finalization key, is not late, and all is as it was; or it was active, every line of it has its
-- stock held now, its totals are priced for the user's active cart as it is, at the session's own
-- revision and the active prices, by a stored and active method of the address's best zone that has
-- the id of the session's method and by the tax policy in force, and it is stored as ready with the
-- key, with nothing else changed. One that raises leaves everything as it was.
pub finalize_checkout-Finalized :
    (collation : Collation) (user : User) (checkout_id key now : ℕ) (s : Db)
    → Ends
        (Finalized collation user checkout_id key now s)
        (λ _ t. t ≡ s)
        (finalize_checkout collation user checkout_id key now s)
unfolding finalize_checkout
finalize_checkout-Finalized collation user checkout_id key now s = Ends-atomic _ s (
    then_read _ _ _ s (lock_user-reads user s) (λ _. refl)
      λ _ _.
        then_read _ _ _ s (owned_session-reads user checkout_id s) (λ _. refl)
          λ old found.
            Ends-branch _ _ _ s
              (λ ready.
                Ends-mono _ _ _ _ _ (λ _ _ h. h) (λ _ _ _. refl)
                  (finalize_again-Finalized collation user checkout_id key now old s found ready))
              λ _.
                then_raise_if _ _ _ s (λ _. refl)
                  λ started.
                    Ends-bind _ _ _ s
                      (Ends-mono _ _ _ _ _ (λ _ _ h. h) (λ _ _ _. refl)
                        (revalidate_ready_boundary-IsReady collation user old now s))
                      λ _ t (same, ready).
                        Ends-bind _ _ _ t
                          (Ends-mono _ _ _ _ _ (λ _ _ h. h) (λ _ _ _. refl)
                            (save_session-saves _ t))
                          λ _ u is. Ends-pure _ u (
                            old,
                            found,
                            inr (
                              ready,
                              ground arith,
                              refl,
                              is
                                  ∙ ap
                                      (λ (d : Db). record d {
                                        sessions =
                                            save (λ y. y.id) (finalized old key now) d.sessions;
                                      })
                                      same,
                            ),
                          ))

-- A session whose time is up is never finalized: the call raises and leaves everything as it was,
-- so that neither the mark `EXPIRED` nor the release of its holds, which the code writes before it
-- raises, is kept.
pub finalize_checkout-late :
    (collation : Collation) (user : User) (checkout_id key now : ℕ) (s : Db) (old : CheckoutSession)
    → first (λ y. y.id == checkout_id && y.user_id == user.id) s.sessions ≡ some old
    → old.expires_at ≤ now
    → Ends (λ _ _. ⊥) (λ _ t. t ≡ s) (finalize_checkout collation user checkout_id key now s)
finalize_checkout-late collation user checkout_id key now s old found late =
    Ends-mono _ _ _ _ _ (λ _ _ h. too_late h) (λ _ _ h. h)
      (finalize_checkout-Finalized collation user checkout_id key now s)
  where
    too_late :
        {x : CheckoutSession} {t : Db} → Finalized collation user checkout_id key now s x t → ⊥
    too_late (again, it, inl h) =
        let same : again.expires_at ≡ old.expires_at =
          ap (λ y. y.expires_at) (some-injective _ _ (sym it ∙ found)) in
        ground (arith, h.4)
    too_late (again, it, inr h) =
        let same : again.expires_at ≡ old.expires_at =
          ap (λ y. y.expires_at) (some-injective _ _ (sym it ∙ found)) in
        ground (arith, h.0.fresh)
