-- ===== src/Commerce/History.antt =====
-- Any sequence of calls of apps/commerce/services.py, each a transaction of its own, at times that
-- do not run backwards.
use visio_backend.Prelude.{ℕ, ◌≤◌, ◌≡◌, false, some, List, [], ◌∷◌, ℤ, Ends-state, Ends-mono}
use visio_backend.Commerce.Models.{Reservation, Stock, is_held, find_reservation}
use visio_backend.Commerce.Services.{
  reserve_variant, release_reservation, consume_reservation, set_on_hand,
}
use visio_backend.Commerce.Coverage.{IsCovered, IsCovered-later}
use visio_backend.Commerce.NoOversell.{reserve_variant-Reserved}
use visio_backend.Commerce.Release.{release_reservation-Freed, set_on_hand-IsCovered}
use visio_backend.Commerce.Consumption.{consume_reservation-Taken}
use visio_backend.Commerce.Finality.{
  Stays, reserve_variant-Stays, release_reservation-Stays, consume_reservation-Stays,
  set_on_hand-Stays,
}

pub data Call : Type 0 where
  reserve : ℕ → ℕ → ℤ → ℤ → Call
  release consume : ℕ → Call
  count : ℕ → ℤ → Call

-- The stock after a call at a time, whether it returned or raised.
unfoldable pub perform : Call → ℕ → Stock → Stock
perform (reserve uuid4 variant_id quantity ttl) now s =
    (reserve_variant uuid4 variant_id quantity ttl now s).1
perform (release reservation_id) now s = (release_reservation reservation_id now s).1
perform (consume reservation_id) now s = (consume_reservation reservation_id now s).1
perform (count variant_id quantity) now s = (set_on_hand variant_id quantity now s).1

unfoldable pub perform_all : List (ℕ × Call) → Stock → Stock
unfolding perform
perform_all [] s = s
perform_all ((now, call) ∷ calls) s = perform_all calls (perform call now s)

-- No call is earlier than the one before it, nor than `start`.
abbrev pub IsChronological : ℕ → List (ℕ × Call) → Type 0
IsChronological start [] = Unit {0}
IsChronological start ((now, call) ∷ calls) = (start ≤ now) × IsChronological now calls

abbrev pub end_of : ℕ → List (ℕ × Call) → ℕ
end_of start [] = start
end_of start ((now, call) ∷ calls) = end_of now calls

perform-IsCovered :
    (call : Call) (now : ℕ) (s : Stock) → IsCovered now s → IsCovered now (perform call now s)
unfolding perform
perform-IsCovered (reserve uuid4 variant_id quantity ttl) now s c =
    Ends-state (IsCovered now) (reserve_variant uuid4 variant_id quantity ttl now s) (
      Ends-mono _ _ _ _ _ (λ _ _ h. h.0) (λ _ t same. rw same c)
        (reserve_variant-Reserved uuid4 variant_id quantity ttl now s c))
perform-IsCovered (release i) now s c = Ends-state (IsCovered now) (release_reservation i now s) (
    Ends-mono _ _ _ _ _ (λ _ _ h. h.covered) (λ _ t same. rw same c)
      (release_reservation-Freed i now s c))
perform-IsCovered (consume i) now s c = Ends-state (IsCovered now) (consume_reservation i now s) (
    Ends-mono _ _ _ _ _ (λ _ _ h. h.covered) (λ _ t same. rw same c)
      (consume_reservation-Taken i now s c))
perform-IsCovered (count variant_id quantity) now s c =
    Ends-state (IsCovered now) (set_on_hand variant_id quantity now s) (
      Ends-mono _ _ _ _ _ (λ _ _ h. h.0) (λ _ t same. rw same c)
        (set_on_hand-IsCovered variant_id quantity now s c))

-- Stock that is covered at the start (keys unique, no inventory with more live holds than it has
-- on hand) is covered after any calls whose times do not run backwards, whether they return or
-- raise.
pub perform_all-IsCovered :
    (calls : List (ℕ × Call)) (start : ℕ) (s : Stock)
    → IsCovered start s
    → IsChronological start calls
    → IsCovered (end_of start calls) (perform_all calls s)
unfolding perform_all
perform_all-IsCovered [] start s c h = c
perform_all-IsCovered ((now, call) ∷ calls) start s c h =
    perform_all-IsCovered calls now (perform call now s)
      (perform-IsCovered call now s (IsCovered-later start s c now h.0)) h.1

perform-Stays :
    (j : ℕ) (r : Reservation) (closed : is_held r.status ≡ false) (call : Call) (now : ℕ)
    (s : Stock)
    → Stays j r closed s
    → Stays j r closed (perform call now s)
unfolding perform
perform-Stays j r closed (reserve uuid4 variant_id quantity ttl) now s h =
    Ends-state (Stays j r closed) _
      (reserve_variant-Stays j r closed uuid4 variant_id quantity ttl now s h)
perform-Stays j r closed (release i) now s h =
    Ends-state (Stays j r closed) _ (release_reservation-Stays j r closed i now s h)
perform-Stays j r closed (consume i) now s h =
    Ends-state (Stays j r closed) _ (consume_reservation-Stays j r closed i now s h)
perform-Stays j r closed (count variant_id quantity) now s h =
    Ends-state (Stays j r closed) _ (set_on_hand-Stays j r closed variant_id quantity now s h)

-- Once a stored reservation is released, consumed or expired, no calls at all change its row.
pub perform_all-final :
    (j : ℕ) (r : Reservation)
    → is_held r.status ≡ false
    → (calls : List (ℕ × Call)) (s : Stock) → find_reservation j s ≡ some r
    → find_reservation j (perform_all calls s) ≡ some r
unfolding perform_all
perform_all-final j r closed [] s h = h
perform_all-final j r closed ((now, call) ∷ calls) s h =
    perform_all-final j r closed calls (perform call now s) (perform-Stays j r closed call now s h)
