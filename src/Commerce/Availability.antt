-- ===== src/Commerce/Availability.antt =====
-- When the operations of apps/commerce/services.py return: the refusals of Services.antt are the
-- only ones.
use visio_backend.Prelude.{
  ℕ, ◌+◌, ◌≤◌, ◌<◌, ◌≡◌, ◌≢◌, ◌-◌, inl, inr, ok, Bool-cases, refl, true, false, if◌then◌else◌, some,
  arith, ◌==◌, ltb, ==→≡, ==-refl, ℤ, pos, pos_part, leb_ℤ, first, first-test, first-update,
  aggregate-update_drop, ◌>>=◌, Ends, Ends-atomic, Ends-pure, Ends-branch, then_ok, then_gets,
  then_modify, Returns, Ends-Returns, then_found, then_allowed,
}
use visio_backend.Commerce.Models.{
  Variant, Inventory, ReservationStatus, active, released, consumed, expired, Reservation, Stock,
  is_held, find_variant, find_inventory, find_reservation,
}
use visio_backend.Commerce.Services.{
  is_live, is_stale, reserved_quantity, expire_stale_locked, available_quantity, locked_inventory,
  create_reservation, reserve_variant, reservation_inventory_id, release_locked,
  release_reservation, consume_locked, consume_reservation,
}
use visio_backend.Commerce.Coverage.{
  IsCovered, expire_stale_locked-returns, reserved_quantity-expire,
}
use visio_backend.Commerce.NoOversell.{Reserved, reserve_variant-Reserved}
use visio_backend.Commerce.Release.{Freed, release_reservation-Freed}
use visio_backend.Commerce.Consumption.{Taken, consume_reservation-Taken}

-- A row that is not stale is found as it was after the sweep.
find_reservation-kept :
    (i : ℕ) (w : Inventory) (now : ℕ) (s : Stock) (row : Reservation)
    → find_reservation i s ≡ some row
    → is_stale w.id now row ≡ false
    → find_reservation i (expire_stale_locked w now s).1 ≡ some row
unfolding expire_stale_locked ◌>>=◌
find_reservation-kept i w now s row found fresh =
    rw
      (
        first-update (λ (r : Reservation). r.id == i) (is_stale w.id now)
            (λ (r : Reservation). record r { status = expired; updated_at = now }) s.reservations
            (λ x. refl),
        found,
        fresh,
      )
      refl

find_reservation-swept :
    (i : ℕ) (w : Inventory) (now : ℕ) (s : Stock) (row : Reservation)
    → find_reservation i s ≡ some row
    → find_reservation i (expire_stale_locked w now s).1
      ≡ some
          (if is_stale w.id now row then record row { status = expired; updated_at = now } else row)
unfolding expire_stale_locked ◌>>=◌
find_reservation-swept i w now s row found =
    rw
      (
        first-update (λ (r : Reservation). r.id == i) (is_stale w.id now)
            (λ (r : Reservation). record r { status = expired; updated_at = now }) s.reservations
            (λ x. refl),
        found,
      )
      refl

-- One live hold of an inventory is part of its total.
reserved_quantity-part :
    (v : Inventory) (now : ℕ) (s : Stock) (i : ℕ) (row : Reservation)
    → find_reservation i s ≡ some row
    → is_live v.id now row ≡ true
    → row.quantity ≤ reserved_quantity v now s
unfolding reserved_quantity
reserved_quantity-part v now s i row found live = omega (
  arith,
  aggregate-update_drop (is_live v.id now) (λ (r : Reservation). r.id == i)
      (λ r. record r { status = expired }) (λ r. r.quantity) s.reservations row
      (λ x _. ground arith) found live,
)

consume_reservation-Returns :
    (reservation_id now : ℕ) (s : Stock) (old : Reservation) (v : Inventory)
    → find_reservation reservation_id s ≡ some old
    → is_held old.status ≡ true
    → now < old.expires_at
    → find_inventory old.inventory_id s ≡ some v
    → old.quantity ≤ v.on_hand
    → Returns (consume_reservation reservation_id now s)
unfolding consume_reservation reservation_inventory_id consume_locked
consume_reservation-Returns reservation_id now s old v found held fresh shelf enough =
    then_ok _ _ s {a = old.inventory_id} {s' = s} (unfold ◌>>=◌ in rw found refl) (
      Ends-atomic _ s (
        then_gets _ _ s (
          then_found _ _ _ s v shelf (
            then_ok _ _ s (expire_stale_locked-returns v now s) (
              then_gets _ _ _ (
                then_found _ _ _ _ old
                  (find_reservation-kept reservation_id v now s old found (ground arith))
                  (then_allowed _ _ _ _ (rw held refl) (
                    Ends-branch _ _ _ _ (λ late. absurd (ground arith))
                      λ _.
                        then_allowed _ _ _ _ (ground arith)
                          (then_modify _ _ _ (then_modify _ _ _ (Ends-pure _ _ tt)))))))))))

-- From covered stock, consuming a stored hold that is active and not yet late, on an inventory that
-- is there, never fails, and does what a consumption does.
pub consume_reservation-returns :
    (reservation_id now : ℕ) (s : Stock) (old : Reservation) (v : Inventory)
    → IsCovered now s
    → find_reservation reservation_id s ≡ some old
    → is_held old.status ≡ true
    → now < old.expires_at
    → find_inventory old.inventory_id s ≡ some v
    → Ends (Taken reservation_id now s) (λ _ _. ⊥) (consume_reservation reservation_id now s)
consume_reservation-returns reservation_id now s old v c found held fresh shelf =
    Ends-Returns _ (consume_reservation-Taken reservation_id now s c)
      (consume_reservation-Returns reservation_id now s old v found held fresh shelf enough)
  where
    own : v.id ≡ old.inventory_id
    own = ==→≡ _ _ (first-test (λ (x : Inventory). x.id == old.inventory_id) s.inventories v shelf)

    enough : old.quantity ≤ v.on_hand
    enough = omega (
      arith,
      c.within old.inventory_id v shelf,
      reserved_quantity-part v now s reservation_id old found
          (rw (own, ==-refl old.inventory_id, held) (ground arith)),
    )

release_locked-Returns :
    (status : ReservationStatus) (row : Reservation) (now : ℕ) (t : Stock)
    → status ≢ consumed
    → Returns (release_locked status row now t)
unfolding release_locked
release_locked-Returns released row now t on = Ends-pure _ t tt
release_locked-Returns expired row now t on = Ends-pure _ t tt
release_locked-Returns consumed row now t on = absurd (on refl)
release_locked-Returns active row now t on = then_modify _ _ t (Ends-pure _ _ tt)

release_reservation-Returns :
    (reservation_id now : ℕ) (s : Stock) (old : Reservation) (v : Inventory)
    → find_reservation reservation_id s ≡ some old
    → is_held old.status ≡ true
    → find_inventory old.inventory_id s ≡ some v
    → Returns (release_reservation reservation_id now s)
unfolding release_reservation reservation_inventory_id
release_reservation-Returns reservation_id now s old v found held shelf =
    then_ok _ _ s {a = old.inventory_id} {s' = s} (unfold ◌>>=◌ in rw found refl) (
      Ends-atomic _ s (
        then_gets _ _ s (
          then_found _ _ _ s v shelf (
            then_ok _ _ s (expire_stale_locked-returns v now s) (
              then_gets _ _ _ (
                then_found _ _ _ _ _ (find_reservation-swept reservation_id v now s old found)
                  (elim (Bool-cases (is_stale v.id now old)) [
                    | inl late ↦ rw late (release_locked-Returns expired _ now _ (λ e. absurd (cc)))
                    | inr fresh ↦
                        rw fresh
                          (release_locked-Returns old.status _ now _ (λ e. absurd (ground arith)))
                  ])))))))

-- From covered stock, releasing a stored hold that is active, late or not, on an inventory that is
-- there, never fails, and does what a release does.
pub release_reservation-returns :
    (reservation_id now : ℕ) (s : Stock) (old : Reservation) (v : Inventory)
    → IsCovered now s
    → find_reservation reservation_id s ≡ some old
    → is_held old.status ≡ true
    → find_inventory old.inventory_id s ≡ some v
    → Ends (Freed reservation_id now s) (λ _ _. ⊥) (release_reservation reservation_id now s)
release_reservation-returns reservation_id now s old v c found held shelf =
    Ends-Returns _ (release_reservation-Freed reservation_id now s c)
      (release_reservation-Returns reservation_id now s old v found held shelf)

-- What is left after the sweep is what was left before it.
available_quantity-swept :
    (v : Inventory) (now : ℕ) (s : Stock)
    → reserved_quantity v now s ≤ v.on_hand
    → available_quantity v now (expire_stale_locked v now s).1
      ≡ (ok (v.on_hand - reserved_quantity v now s), (expire_stale_locked v now s).1)
unfolding available_quantity ◌>>=◌
available_quantity-swept v now s room =
    rw (reserved_quantity-expire v v now now s (omega arith)) (rw not_below refl)
  where
    not_below : ltb v.on_hand (reserved_quantity v now s) ≡ false
    not_below = ground arith

locked_inventory-finds :
    (variant_id : ℕ) (s : Stock) (v : Inventory) (w : Variant)
    → first (λ (x : Inventory). x.variant_id == variant_id) s.inventories ≡ some v
    → find_variant v.variant_id s ≡ some w
    → locked_inventory variant_id s ≡ (ok (v, w), s)
unfolding locked_inventory ◌>>=◌
locked_inventory-finds variant_id s v w shelf kind = rw (shelf, kind) refl

-- From covered stock, a reservation of an active variant on its active inventory, with a positive
-- time to live and a positive quantity that is not above what is left there, never fails, and does
-- what a reservation does.
pub reserve_variant-returns :
    (uuid4 variant_id : ℕ) (quantity ttl : ℤ) (now : ℕ) (s : Stock) (v : Inventory) (w : Variant)
    → IsCovered now s
    → first (λ (x : Inventory). x.variant_id == variant_id) s.inventories ≡ some v
    → find_variant v.variant_id s ≡ some w
    → v.is_active ≡ true
    → w.is_active ≡ true
    → leb_ℤ quantity (pos 0) ≡ false
    → leb_ℤ ttl (pos 0) ≡ false
    → pos_part quantity + reserved_quantity v now s ≤ v.on_hand
    → Ends
        (Reserved quantity now s)
        (λ _ _. ⊥)
        (reserve_variant uuid4 variant_id quantity ttl now s)
unfolding reserve_variant create_reservation
reserve_variant-returns uuid4 variant_id quantity ttl now s v w c shelf kind on sold positive lasts
      room =
    Ends-Returns _ (reserve_variant-Reserved uuid4 variant_id quantity ttl now s c) (
      then_allowed _ _ _ s positive (
        then_allowed _ _ _ s lasts (
          Ends-atomic _ s (
            then_ok _ _ s (locked_inventory-finds variant_id s v w shelf kind) (
              then_allowed _ _ _ s (rw (on, sold) refl) (
                then_ok _ _ s (expire_stale_locked-returns v now s) (
                  then_ok _ _ _ {a = v.on_hand - reserved_quantity v now s}
                    {s' = (expire_stale_locked v now s).1}
                    (available_quantity-swept v now s (omega (arith, room)))
                    (then_allowed _ _ _ _ (ground arith)
                      (then_modify _ _ _ (Ends-pure _ _ tt))))))))))
