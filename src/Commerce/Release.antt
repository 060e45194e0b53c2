-- ===== src/Commerce/Release.antt =====
-- What `release_reservation` and `set_on_hand` do, on every branch.
use visio_backend.Prelude.{
  ℕ, ◌≡◌, refl, some, arith, ◌==◌, ℤ, pos_part, ◌>>=◌, ◌⊎◌, inl, inr, ◌∙◌, Ends, Ends-mono,
  Ends-atomic, Ends-pure, Ends-raise, then_ok, then_read, then_gets, then_or_raise, then_modify,
  then_raise_if, first-key, first-save_self, first-test, ==→≡,
}
use mathlib.Core.Path.{sym, subst}
use visio_backend.Commerce.Models.{
  Inventory, active, released, consumed, expired, Reservation, ReservationStatus, Stock,
  find_inventory, find_reservation,
}
use visio_backend.Commerce.Services.{
  expire_stale_locked, reservation_inventory_id, release_locked, release_reservation, set_on_hand,
}
use visio_backend.Commerce.Coverage.{
  IsCovered, expire_stale_locked-returns, expire_stale_locked-IsCovered, find_inventory-expire,
  save_reservation-IsCovered, save_inventory-IsCovered,
}

-- The hold is given back or had lapsed, its row is stored, the stock stays covered, and what is on
-- hand is as it was.
pub record Freed (reservation_id now : ℕ) (s : Stock) (row : Reservation) (t : Stock) : Type 0 where
  pub covered : IsCovered now t
  pub stored : find_reservation row.id t ≡ some row
  pub closed : (row.status ≡ released) ⊎ (row.status ≡ expired)
  pub named : row.id ≡ reservation_id
  pub inventories : t.inventories ≡ s.inventories

release_locked-Freed :
    (reservation_id : ℕ) (status : ReservationStatus) (row : Reservation) (now : ℕ) (s : Stock)
    → row.id ≡ reservation_id
    → row.status ≡ status
    → IsCovered now s
    → find_reservation row.id s ≡ some row
    → Ends (Freed reservation_id now s) (λ _ _. Unit {0}) (release_locked status row now s)
unfolding release_locked
release_locked-Freed reservation_id released row now s named is c stored =
    Ends-pure row s
      (record { covered = c; stored = stored; closed = inl is; named = named; inventories = refl })
release_locked-Freed reservation_id expired row now s named is c stored =
    Ends-pure row s
      (record { covered = c; stored = stored; closed = inr is; named = named; inventories = refl })
release_locked-Freed reservation_id consumed row now s named is c stored = Ends-raise _ s tt
release_locked-Freed reservation_id active row now s named is c stored = then_modify _ _ s (
    Ends-pure _ _ (record {
      covered = save_reservation-IsCovered now s c _ refl;
      stored = first-save_self (λ r. r.id) row.id _ s.reservations stored refl;
      closed = inl refl;
      named = named;
      inventories = refl;
    }))

expire-inventories :
    (w : Inventory) (now : ℕ) (s : Stock)
    → (expire_stale_locked w now s).1.inventories ≡ s.inventories
unfolding expire_stale_locked ◌>>=◌
expire-inventories w now s = refl

reservation_inventory_id-unchanged :
    (reservation_id : ℕ) (s : Stock)
    → Ends (λ _ t. (t ≡ s) × Unit {0}) (λ _ t. t ≡ s) (reservation_inventory_id reservation_id s)
unfolding reservation_inventory_id
reservation_inventory_id-unchanged reservation_id s =
    then_gets _ _ s (then_or_raise _ _ _ s (λ _. refl) λ _ _. Ends-pure _ _ (refl, tt))

-- From covered stock, a release that returns gives the named reservation back as released or
-- expired and stored, touches no inventory and keeps the stock covered; one that raises leaves the
-- stock as it was.
pub release_reservation-Freed :
    (reservation_id now : ℕ) (s : Stock)
    → IsCovered now s
    → Ends (Freed reservation_id now s) (λ _ t. t ≡ s) (release_reservation reservation_id now s)
unfolding release_reservation
release_reservation-Freed reservation_id now s c =
    then_read (λ _. Unit {0}) _ _ s (reservation_inventory_id-unchanged reservation_id s)
      (λ _. refl)
      λ inventory_id _. Ends-atomic _ s (
        then_gets _ _ s (
          then_or_raise _ _ _ s (λ _. refl)
            λ inventory _. then_ok _ _ s (expire_stale_locked-returns inventory now s) (
              then_gets _ _ _ (
                then_or_raise _ _ _ _ (λ _. refl)
                  λ row found.
                    Ends-mono _ _ _ _ _
                      (λ freed t h. record {
                        covered = h.covered;
                        stored = h.stored;
                        closed = h.closed;
                        named = h.named;
                        inventories = h.inventories ∙ expire-inventories inventory now s;
                      })
                      (λ _ _ _. refl)
                      (release_locked-Freed reservation_id row.status row now _
                        (==→≡ _ _ (first-test (λ r. r.id == reservation_id) _ row found)) refl
                        (expire_stale_locked-IsCovered now s c inventory now (omega arith))
                        (subst
                          (λ i.
                            find_reservation i (expire_stale_locked inventory now s).1 ≡ some row)
                          (sym (==→≡ _ _ (first-test (λ r. r.id == reservation_id) _ row found)))
                          found))))))

-- From covered stock, a new count that is accepted is stored exactly and keeps the stock covered;
-- one that is refused leaves the stock as it was.
pub set_on_hand-IsCovered :
    (variant_id : ℕ) (quantity : ℤ) (now : ℕ) (s : Stock)
    → IsCovered now s
    → Ends
        (λ row t.
          IsCovered now t
          × (row.on_hand ≡ pos_part quantity)
          × (find_inventory row.id t ≡ some row))
        (λ _ t. t ≡ s)
        (set_on_hand variant_id quantity now s)
unfolding set_on_hand
set_on_hand-IsCovered variant_id quantity now s c =
    then_raise_if _ _ _ s (λ _. refl)
      λ nonneg. Ends-atomic _ s (
        then_gets _ _ s (
          then_or_raise _ _ _ s (λ _. refl)
            λ inventory found. then_ok _ _ s (expire_stale_locked-returns inventory now s) (
              then_gets _ _ _ (
                then_raise_if _ _ _ _ (λ _. refl)
                  λ enough. then_modify _ _ _ (
                    let shelf =
                      find_inventory-expire inventory.id inventory now s
                      ∙ first-key (λ v. v.id) _ s.inventories inventory c.keyed found in
                    Ends-pure _ _ (
                      save_inventory-IsCovered now _
                          (expire_stale_locked-IsCovered now s c inventory now (omega arith))
                          inventory _ refl (ground arith),
                      refl,
                      first-save_self (λ v. v.id) inventory.id _ _ shelf refl,
                    ))))))
