-- ===== src/Orders/Lifecycle/Lines.antt =====
-- The loops over the lines of an order: every line's reservation ends as the transition wants it,
-- and no later line undoes it.
use visio_backend.Prelude.{
  ℕ, ◌≡◌, refl, ◌∙◌, false, ◌⊎◌, some, List, [], ◌∷◌, arith, All, Action, pure, ◌>>◌, for_each,
  Ends, Ends-mono, Ends-pure, Ends-bind, Ends-both, Ends-every,
}
use mathlib.Core.Path.{subst}
use visio_backend.Commerce.Models.{Stock, Reservation, ReservationStatus, is_held, find_reservation}
use visio_backend.Commerce.Services.{consume_reservation, release_reservation}
use visio_backend.Commerce.Coverage.{IsCovered}
use visio_backend.Commerce.Consumption.{consume_reservation-Taken}
use visio_backend.Commerce.Release.{release_reservation-Freed}
use visio_backend.Commerce.Finality.{Stays, consume_reservation-Stays, release_reservation-Stays}
use visio_backend.Database.{Db, on_stock}
use visio_backend.Database.Orders.{OrderLine}
use visio_backend.Orders.Lifecycle.{consume_line, release_line}
use visio_backend.Orders.Lifecycle.Parts.{Ends-on_stock, StockOnly}

-- The reservations that are held no more.
abbrev pub Closed : Stock → Type 0
Closed s =
    (j : ℕ) × (r : Reservation) × (is_held r.status ≡ false) × (find_reservation j s ≡ some r)

-- Every reservation that was closed is what it was.
abbrev pub Finals : Stock → Stock → Type 0
Finals s t = (c : Closed s) → find_reservation c.0 t ≡ some c.1

-- The reservation of a line has a status that `Done` allows.
abbrev pub Settled : (ReservationStatus → Type 0) → OrderLine → Stock → Type 0
Settled Done line s =
    (r : Reservation) × (find_reservation line.reservation_id s ≡ some r) × Done r.status

module _ (now : ℕ) (body : OrderLine → Action Db (Unit {0})) (Done : ReservationStatus → Type 0)
    (Frame : Stock → Stock → Type 0) (frame_refl : (s : Stock) → Frame s s)
    (frame_trans : (s t u : Stock) → Frame s t → Frame t u → Frame s u)
    (closes : (status : ReservationStatus) → Done status → is_held status ≡ false)
    (step : (line : OrderLine) (s : Db)
      → IsCovered now s.stock
      → Ends
          (λ _ t.
            StockOnly now s t
            × Finals s.stock t.stock
            × Frame s.stock t.stock
            × Settled Done line t.stock)
          (λ _ _. Unit {0})
          (body line s)) where
  settle_lines :
      (lines : List OrderLine) (s : Db)
      → IsCovered now s.stock
      → Ends
          (λ _ t.
            StockOnly now s t
            × Finals s.stock t.stock
            × Frame s.stock t.stock
            × All (λ l. Settled Done l t.stock) lines)
          (λ _ _. Unit {0})
          (for_each lines body s)
  unfolding for_each
  settle_lines [] s c = Ends-pure _ s ((refl, c), (λ k. k.3), frame_refl s.stock, tt)
  settle_lines (l ∷ lines) s c =
      Ends-bind _ (body l) (λ _. for_each lines body) s (step l s c)
        λ _ t (only, finals, frame, done).
          Ends-mono _ _ _ _ _
            (λ _ u (only', finals', frame', rest). (
              (only'.0 ∙ rw (only.0) refl, only'.1),
              (λ k. finals' (k.0, k.1, k.2, finals k)),
              frame_trans s.stock t.stock u.stock frame frame',
              (
                (
                  done.0,
                  finals' (l.reservation_id, done.0, closes done.0.status done.2, done.1),
                  done.2,
                ),
                rest,
              ),
            ))
            (λ _ _ h. h) (settle_lines lines t only.1)

-- One call of a stock service from a loop.
module _ {now : ℕ} {Q : Reservation → Stock → Type 0} (Post : Stock → Type 0) where
  call_settles :
      (m : Action Stock Reservation) (db : Db)
      → Ends Q (λ _ t. t ≡ db.stock) (m db.stock)
      → ((j : ℕ) (r : Reservation) (closed : is_held r.status ≡ false)
          → Stays j r closed db.stock
          → Ends (λ _ t. Stays j r closed t) (λ _ t. Stays j r closed t) (m db.stock))
      → ((row : Reservation) (t : Stock) → Q row t → IsCovered now t × Post t)
      → Ends
          (λ _ t. StockOnly now db t × Finals db.stock t.stock × Post t.stock)
          (λ _ _. Unit {0})
          ((on_stock m >> pure tt) db)
  call_settles m db runs stays post =
      Ends-bind (λ _ t. StockOnly now db t × Finals db.stock t.stock × Post t.stock) _ _ db
        (Ends-mono _ _ _ _ _
          (λ row t (only, ((covered, more), finals)). ((only, covered), finals, more)) (λ _ _ _. tt)
          (Ends-on_stock m db (
            Ends-both (m db.stock) (Ends-mono _ _ _ _ _ post (λ _ _ _. tt) runs)
              (Ends-every (m db.stock) λ (c : Closed db.stock). stays c.0 c.1 c.2 c.3))))
        λ row t h. Ends-pure _ t h

abbrev pub IsConsumed : ReservationStatus → Type 0
IsConsumed status = status ≡ ReservationStatus.consumed

abbrev pub IsFreed : ReservationStatus → Type 0
IsFreed status = (status ≡ ReservationStatus.released) ⊎ (status ≡ ReservationStatus.expired)

consume_line-settles :
    (now : ℕ) (line : OrderLine) (s : Db)
    → IsCovered now s.stock
    → Ends
        (λ _ t.
          StockOnly now s t × Finals s.stock t.stock × Unit {0} × Settled IsConsumed line t.stock)
        (λ _ _. Unit {0})
        (consume_line now line s)
unfolding consume_line
consume_line-settles now line s c =
    Ends-mono _ _ _ _ _ (λ _ t h. (h.0, h.1, tt, h.2)) (λ _ _ h. h)
      (call_settles (Settled IsConsumed line) (consume_reservation line.reservation_id now) s
        (consume_reservation-Taken line.reservation_id now s.stock c)
        (λ j r closed h. consume_reservation-Stays j r closed line.reservation_id now s.stock h)
        λ row t h. (
          h.covered,
          (row, subst (λ i. find_reservation i t ≡ some row) h.named h.stored, h.closed),
        ))

release_line-settles :
    (now : ℕ) (line : OrderLine) (s : Db)
    → IsCovered now s.stock
    → Ends
        (λ _ t.
          StockOnly now s t
          × Finals s.stock t.stock
          × (t.stock.inventories ≡ s.stock.inventories)
          × Settled IsFreed line t.stock)
        (λ _ _. Unit {0})
        (release_line now line s)
unfolding release_line
release_line-settles now line s c =
    Ends-mono _ _ _ _ _ (λ _ t h. (h.0, h.1, h.2.0, h.2.1)) (λ _ _ h. h)
      (call_settles (λ t. (t.inventories ≡ s.stock.inventories) × Settled IsFreed line t)
        (release_reservation line.reservation_id now) s
        (release_reservation-Freed line.reservation_id now s.stock c)
        (λ j r closed h. release_reservation-Stays j r closed line.reservation_id now s.stock h)
        λ row t h. (
          h.covered,
          (
            h.inventories,
            (row, subst (λ i. find_reservation i t ≡ some row) h.named h.stored, h.closed),
          ),
        ))

-- After the loop of the confirmation every line's hold is consumed.
pub consume_lines-settle :
    (now : ℕ) (lines : List OrderLine) (s : Db)
    → IsCovered now s.stock
    → Ends
        (λ _ t.
          StockOnly now s t
          × Finals s.stock t.stock
          × Unit {0}
          × All (λ l. Settled IsConsumed l t.stock) lines)
        (λ _ _. Unit {0})
        (for_each lines (consume_line now) s)
consume_lines-settle now =
    settle_lines now (consume_line now) IsConsumed (λ _ _. Unit {0}) (λ _. tt) (λ _ _ _ _ _. tt)
      (λ status h. rw h refl) (consume_line-settles now)

closed_of_IsFreed : (status : ReservationStatus) → IsFreed status → is_held status ≡ false
closed_of_IsFreed status h = ground arith

-- After the loop of a cancellation or an expiry every line's hold is free, and no shelf has changed.
pub release_lines-settle :
    (now : ℕ) (lines : List OrderLine) (s : Db)
    → IsCovered now s.stock
    → Ends
        (λ _ t.
          StockOnly now s t
          × Finals s.stock t.stock
          × (t.stock.inventories ≡ s.stock.inventories)
          × All (λ l. Settled IsFreed l t.stock) lines)
        (λ _ _. Unit {0})
        (for_each lines (release_line now) s)
release_lines-settle now =
    settle_lines now (release_line now) IsFreed (λ s t. t.inventories ≡ s.inventories) (λ _. refl)
      (λ _ _ _ p q. q ∙ p) closed_of_IsFreed (release_line-settles now)
