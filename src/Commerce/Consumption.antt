-- ===== src/Commerce/Consumption.antt =====
-- What a returned `consume_reservation` has done: the hold is closed and exactly its quantity has
-- left the shelf. One that raises has changed nothing, the `EXPIRED` mark included.
use visio_backend.Prelude.{
  ℕ, ◌+◌, ◌≤◌, ◌≡◌, ◌≢◌, refl, sym, ◌∙◌, true, some, arith, ◌==◌, if◌then◌else◌, ◌>>=◌, Ends,
  Ends-mono, Ends-atomic, Ends-pure, Ends-raise, Ends-branch, then_ok, then_read, then_gets,
  then_or_raise, then_modify, then_raise_if, first-test, ==→≡, first-save_self, first-save_other,
  first-update,
}
use mathlib.Core.Option.{some-injective}
use mathlib.Core.Path.{subst}
use visio_backend.Commerce.Models.{
  Inventory, consumed, expired, Reservation, Stock, is_held, find_inventory, find_reservation,
}
use visio_backend.Commerce.Services.{
  is_stale, expire_stale_locked, reservation_inventory_id, consume_locked, consume_reservation,
}
use visio_backend.Commerce.Coverage.{
  IsCovered, expire_stale_locked-returns, find_inventory-expire, expire_stale_locked-IsCovered,
  consume-IsCovered,
}

-- Marking holds as expired leaves their inventory and quantity alone.
pub find_reservation-expire :
    (i : ℕ) (w : Inventory) (now : ℕ) (s : Stock) (old row : Reservation)
    → find_reservation i s ≡ some old
    → find_reservation i (expire_stale_locked w now s).1 ≡ some row
    → (row.inventory_id ≡ old.inventory_id) × (row.expires_at ≡ old.expires_at) × (row.id ≡ i)
unfolding expire_stale_locked ◌>>=◌
find_reservation-expire i w now s old row before after =
    let it : (if is_stale w.id now old
          then record old { status = expired; updated_at = now }
          else old)
        ≡ row =
      some-injective _ _ (
        rw before at (
          sym (first-update (λ r. r.id == i) (is_stale w.id now) _ s.reservations (λ x. refl))
          ∙ after)) in
    let named : row.id ≡ i = ==→≡ _ _ (first-test (λ r. r.id == i) _ row after) in ground arith

reservation_inventory_id-reads :
    (reservation_id : ℕ) (s : Stock)
    → Ends
        (λ i t.
          (t ≡ s)
          × ((old : Reservation) × (find_reservation reservation_id s ≡ some old)
              × (old.inventory_id ≡ i)))
        (λ _ t. t ≡ s)
        (reservation_inventory_id reservation_id s)
unfolding reservation_inventory_id
reservation_inventory_id-reads reservation_id s =
    then_gets _ _ s
      (then_or_raise _ _ _ s (λ _. refl) λ old found. Ends-pure _ _ (refl, (old, found, refl)))

-- The change of the stock by a consumed hold: its inventory has `quantity` less, others are as
-- they were, and the row is stored as consumed.
pub record Taken (reservation_id now : ℕ) (s : Stock) (row : Reservation) (t : Stock) : Type 0 where
  pub covered : IsCovered now t
  pub stored : find_reservation row.id t ≡ some row
  pub closed : row.status ≡ consumed
  pub named : row.id ≡ reservation_id
  pub less :
      (v : Inventory)
      → find_inventory row.inventory_id s ≡ some v
      → (w : Inventory) × (find_inventory row.inventory_id t ≡ some w)
        × (w.on_hand + row.quantity ≡ v.on_hand)
  pub others : (i : ℕ) → i ≢ row.inventory_id → find_inventory i t ≡ find_inventory i s

consume_locked-Taken :
    (reservation_id now : ℕ) (s : Stock) (inventory : Inventory) (row : Reservation)
    → row.id ≡ reservation_id
    → IsCovered now s
    → find_inventory inventory.id s ≡ some inventory
    → find_reservation row.id s ≡ some row
    → row.inventory_id ≡ inventory.id
    → is_held row.status ≡ true
    → Ends (Taken reservation_id now s) (λ _ _. Unit {0}) (consume_locked inventory row now s)
unfolding consume_locked
consume_locked-Taken reservation_id now s inventory row named c found stored own held =
    Ends-branch _ _ _ s (λ _. then_modify _ _ _ (Ends-raise _ _ tt))
      λ fresh.
        then_raise_if _ _ _ s (λ _. tt)
          λ enough. then_modify _ _ _ (
            then_modify _ _ _ (
              Ends-pure _ _ (record {
                covered =
                    consume-IsCovered now s _ row inventory _ c refl stored (ground arith) found
                      refl (ground arith);
                stored = first-save_self (λ r. r.id) row.id _ s.reservations stored refl;
                closed = refl;
                named = named;
                less = λ v e.
                    let it : v ≡ inventory =
                      some-injective _ _ (
                        sym e ∙ subst (λ i. find_inventory i s ≡ some inventory) (sym own) found) in
                    (
                      _,
                      first-save_self (λ x. x.id) row.inventory_id _ s.inventories e (sym own),
                      ground arith,
                    );
                others = λ i other. first-save_other (λ x. x.id) i _ s.inventories (ground arith);
              })))

Taken-expire :
    (i now : ℕ) (s : Stock) (w : Inventory) (row : Reservation) (t : Stock)
    → Taken i now (expire_stale_locked w now s).1 row t
    → Taken i now s row t
Taken-expire i now s w row t h = record {
  covered = h.covered;
  stored = h.stored;
  closed = h.closed;
  named = h.named;
  less = λ v e. h.less v (find_inventory-expire row.inventory_id w now s ∙ e);
  others = λ i other. h.others i other ∙ find_inventory-expire i w now s;
}

-- From covered stock, a consumption that returns gives the named hold back as consumed and stored,
-- leaves exactly its quantity short on its own inventory and every other inventory as it was, and
-- keeps the stock covered; a run that raises leaves the stock as it was.
pub consume_reservation-Taken :
    (reservation_id now : ℕ) (s : Stock)
    → IsCovered now s
    → Ends (Taken reservation_id now s) (λ _ t. t ≡ s) (consume_reservation reservation_id now s)
unfolding consume_reservation
consume_reservation-Taken reservation_id now s c =
    then_read
      (λ i.
        (old : Reservation) × (find_reservation reservation_id s ≡ some old)
        × (old.inventory_id ≡ i))
      _ _ s (reservation_inventory_id-reads reservation_id s) (λ _. refl)
      λ inventory_id (old, before, of_old). Ends-atomic _ s (
        then_gets _ _ s (
          then_or_raise _ _ _ s (λ _. refl)
            λ inventory found. then_ok _ _ s (expire_stale_locked-returns inventory now s) (
              then_gets _ _ _ (
                then_or_raise _ _ _ _ (λ _. refl)
                  λ row after.
                    then_raise_if _ _ _ _ (λ _. refl)
                      λ held.
                        let own_row =
                          find_reservation-expire reservation_id inventory now s old row before
                            after in
                        let own_shelf : inventory.id ≡ inventory_id =
                          ==→≡ _ _ (first-test (λ v. v.id == inventory_id) _ inventory found) in
                        Ends-mono _ _ _ _ _
                          (λ taken t. Taken-expire reservation_id now s inventory taken t)
                          (λ _ _ _. refl)
                          (consume_locked-Taken reservation_id now _ inventory row own_row.2
                            (expire_stale_locked-IsCovered now s c inventory now (omega arith))
                            (find_inventory-expire inventory.id inventory now s
                              ∙ subst (λ i. find_inventory i s ≡ some inventory) (sym own_shelf)
                                  found)
                            (subst
                              (λ i.
                                find_reservation i (expire_stale_locked inventory now s).1
                                ≡ some row)
                              (sym own_row.2) after)
                            (own_row.0 ∙ of_old ∙ sym own_shelf) (ground arith))))))

consume_locked-late :
    {s : Stock} (now : ℕ) (t : Stock) (inventory : Inventory) (row : Reservation)
    → row.expires_at ≤ now
    → Ends (λ _ _. ⊥) (λ _ _. s ≡ s) (consume_locked inventory row now t)
unfolding consume_locked
consume_locked-late now t inventory row late =
    Ends-branch _ _ _ t (λ _. then_modify _ _ _ (Ends-raise _ _ refl))
      λ fresh. absurd (ground arith)

-- A reservation whose time is up is never consumed: the call raises and leaves the stock as it
-- was, so that neither the mark `EXPIRED` that it writes nor any that the sweep before it wrote is
-- kept.
pub consume_reservation-expired :
    (reservation_id now : ℕ) (s : Stock) (old : Reservation)
    → find_reservation reservation_id s ≡ some old
    → old.expires_at ≤ now
    → Ends (λ _ _. ⊥) (λ _ t. t ≡ s) (consume_reservation reservation_id now s)
unfolding consume_reservation
consume_reservation-expired reservation_id now s old before late =
    then_read
      (λ i.
        (found : Reservation) × (find_reservation reservation_id s ≡ some found)
        × (found.inventory_id ≡ i))
      _ _ s (reservation_inventory_id-reads reservation_id s) (λ _. refl)
      λ inventory_id _. Ends-atomic _ s (
        then_gets _ _ s (
          then_or_raise _ _ _ s (λ _. refl)
            λ inventory found. then_ok _ _ s (expire_stale_locked-returns inventory now s) (
              then_gets _ _ _ (
                then_or_raise _ _ _ _ (λ _. refl)
                  λ row after.
                    then_raise_if _ _ _ _ (λ _. refl)
                      λ _.
                        let (_, kept, _) =
                          find_reservation-expire reservation_id inventory now s old row before
                            after in
                        consume_locked-late now _ inventory row (omega arith)))))
