-- ===== src/Commerce/Services.antt =====
-- apps/commerce/services.py, function by function. `now` is `at or timezone.now()`, taken once by
-- each function; `uuid4` is the primary key that a created row draws. A row lock
-- (`select_for_update`) reads the row: the steps of one transaction are not interleaved.
use visio_backend.Prelude.{
  ℕ, ◌+◌, ◌-◌, Bool, ◌&&◌, ◌||◌, not, ltb, leb, ◌==◌, ℤ, pos, pos_part, ltb_ℤ, leb_ℤ, Action, pure,
  raise, gets, or_raise, atomic, branch, modify, raise_if, ◌>>=◌, ◌>>◌, value_error, does_not_exist,
  inventory_unavailable, reservation_state, first, update, aggregate, create,
}
use visio_backend.Commerce.Models.{
  Variant, Inventory, ReservationStatus, active, released, consumed, expired, Reservation, Stock,
  is_held, find_variant, find_inventory, find_reservation, save_inventory, save_reservation,
}

-- timedelta(minutes=15)
abbrev pub default_reservation_ttl : ℤ
default_reservation_ttl = pos 900

-- `status=ACTIVE, expires_at__gt=at` among the reservations of one inventory
abbrev pub is_live : ℕ → ℕ → Reservation → Bool
is_live inventory_id at r =
    r.inventory_id == inventory_id && (is_held r.status && ltb at r.expires_at)

-- `status=ACTIVE, expires_at__lte=at` among them
abbrev pub is_stale : ℕ → ℕ → Reservation → Bool
is_stale inventory_id at r =
    r.inventory_id == inventory_id && (is_held r.status && leb r.expires_at at)

unfoldable pub reserved_quantity : Inventory → ℕ → Stock → ℕ
reserved_quantity inventory at s =
    aggregate (is_live inventory.id at) (λ r. r.quantity) s.reservations

unfoldable pub expire_stale_locked : Inventory → ℕ → Action Stock Unit
expire_stale_locked inventory at = modify λ s. record s {
  reservations =
      update (is_stale inventory.id at) (λ r. record r { status = expired; updated_at = at })
        s.reservations;
}

unfoldable pub available_quantity : Inventory → ℕ → Action Stock ℕ
available_quantity inventory now = do
  reserved ← gets (reserved_quantity inventory now)
  raise_if (ltb inventory.on_hand reserved) inventory_unavailable
  pure (inventory.on_hand - reserved)

-- `.select_related("variant").get(variant_id=variant_id)`: an inner join
unfoldable pub locked_inventory : ℕ → Action Stock (Inventory × Variant)
locked_inventory variant_id = do
  inventory ←
      or_raise (← gets (λ s. first (λ v. v.variant_id == variant_id) s.inventories)) does_not_exist
  variant ← or_raise (← gets (find_variant inventory.variant_id)) does_not_exist
  pure (inventory, variant)

-- `InventoryReservation.objects.create(...)`
unfoldable pub create_reservation : Reservation → Action Stock Reservation
create_reservation row = do
  modify (λ s. record s { reservations = create row s.reservations })
  pure row

unfoldable pub reserve_variant : ℕ → ℕ → ℤ → ℤ → ℕ → Action Stock Reservation
reserve_variant uuid4 variant_id quantity ttl now = do
  raise_if (leb_ℤ quantity (pos 0)) value_error
  raise_if (leb_ℤ ttl (pos 0)) value_error
  atomic do
    (inventory, variant) ← locked_inventory variant_id
    raise_if (not inventory.is_active || not variant.is_active) inventory_unavailable
    expire_stale_locked inventory now
    available ← available_quantity inventory now
    raise_if (ltb_ℤ (pos available) quantity) inventory_unavailable
    create_reservation (record {
      id = uuid4;
      inventory_id = inventory.id;
      quantity = pos_part quantity;
      status = active;
      expires_at = now + pos_part ttl;
      updated_at = now;
    })

unfoldable pub reservation_inventory_id : ℕ → Action Stock ℕ
reservation_inventory_id reservation_id = do
  reservation ← or_raise (← gets (find_reservation reservation_id)) does_not_exist
  pure reservation.inventory_id

-- What `release_reservation` does with the row, by its status.
unfoldable pub release_locked : ReservationStatus → Reservation → ℕ → Action Stock Reservation
release_locked released reservation now = pure reservation
release_locked expired reservation now = pure reservation
release_locked consumed reservation now = raise reservation_state
release_locked active reservation now = do
  let row = record reservation { status = released; updated_at = now }
  modify (save_reservation row)
  pure row

unfoldable pub release_reservation : ℕ → ℕ → Action Stock Reservation
release_reservation reservation_id now = do
  inventory_id ← reservation_inventory_id reservation_id
  atomic do
    inventory ← or_raise (← gets (find_inventory inventory_id)) does_not_exist
    expire_stale_locked inventory now
    reservation ← or_raise (← gets (find_reservation reservation_id)) does_not_exist
    release_locked reservation.status reservation now

-- `consume_reservation` from the test of `expires_at` on.
unfoldable pub consume_locked : Inventory → Reservation → ℕ → Action Stock Reservation
consume_locked inventory reservation now =
    branch (leb reservation.expires_at now)
      (do
        modify (save_reservation (record reservation { status = expired; updated_at = now }))
        raise reservation_state)
      do
        raise_if (ltb inventory.on_hand reservation.quantity) inventory_unavailable
        modify (
            save_inventory (record inventory {
              on_hand = inventory.on_hand - reservation.quantity;
              updated_at = now;
            }))
        let row = record reservation { status = consumed; updated_at = now }
        modify (save_reservation row)
        pure row

unfoldable pub consume_reservation : ℕ → ℕ → Action Stock Reservation
consume_reservation reservation_id now = do
  inventory_id ← reservation_inventory_id reservation_id
  atomic do
    inventory ← or_raise (← gets (find_inventory inventory_id)) does_not_exist
    expire_stale_locked inventory now
    reservation ← or_raise (← gets (find_reservation reservation_id)) does_not_exist
    raise_if (not (is_held reservation.status)) reservation_state
    consume_locked inventory reservation now

unfoldable pub set_on_hand : ℕ → ℤ → ℕ → Action Stock Inventory
set_on_hand variant_id quantity now = do
  raise_if (ltb_ℤ quantity (pos 0)) value_error
  atomic do
    inventory ←
        or_raise (← gets (λ s. first (λ v. v.variant_id == variant_id) s.inventories))
          does_not_exist
    expire_stale_locked inventory now
    reserved ← gets (reserved_quantity inventory now)
    raise_if (ltb_ℤ quantity (pos reserved)) inventory_unavailable
    let row = record inventory { on_hand = pos_part quantity; updated_at = now }
    modify (save_inventory row)
    pure row

-- Unfolding this unfolds the services: for runs.
unfoldable pub services : Unit {0}
unfolding ◌>>=◌ reserved_quantity expire_stale_locked available_quantity locked_inventory
    create_reservation reserve_variant reservation_inventory_id release_locked release_reservation
    consume_locked consume_reservation set_on_hand
services = tt
