-- ===== src/Commerce/Coverage.antt =====
-- That stock is never promised twice: the live reservations of an inventory stay within what it
-- has on hand, under every operation of apps/commerce/services.py.
use visio_backend.Prelude.{
  ℕ, ◌+◌, ◌≤◌, ◌≡◌, refl, sym, ◌∙◌, true, false, none, some, arith, inl, inr, ◌==◌, if◌then◌else◌,
  Bool-cases, Option-cases, ==→≡, ok, aggregate-create, aggregate-update, aggregate-update_le,
  aggregate-update_drop, aggregate-weaken, ◌>>=◌, IsKeyed, first-save, save-IsKeyed, first-test,
}
use mathlib.Core.Option.{some-injective}
use visio_backend.Commerce.Models.{
  Inventory, Reservation, Stock, is_held, find_inventory, find_reservation, save_inventory,
  save_reservation,
}
use visio_backend.Commerce.Services.{
  is_live, is_stale, reserved_quantity, expire_stale_locked, create_reservation,
}

-- At time `at` no inventory has more reserved than on hand; primary keys are unique.
pub record IsCovered (at : ℕ) (s : Stock) : Type 0 where
  pub keyed : IsKeyed (λ v. v.id) s.inventories
  pub within :
      (i : ℕ) (v : Inventory) → find_inventory i s ≡ some v → reserved_quantity v at s ≤ v.on_hand

-- What is held at a later time was held before.
pub reserved_quantity_later :
    (v : Inventory) (at later : ℕ) (s : Stock)
    → at ≤ later
    → reserved_quantity v later s ≤ reserved_quantity v at s
unfolding reserved_quantity
reserved_quantity_later v at later s h =
    aggregate-weaken (is_live v.id later) (is_live v.id at) _ s.reservations λ r live. ground arith

-- Marking stale holds as expired changes no total from then on.
pub reserved_quantity-expire :
    (v w : Inventory) (now at : ℕ) (s : Stock)
    → now ≤ at
    → reserved_quantity v at (expire_stale_locked w now s).1 ≡ reserved_quantity v at s
unfolding reserved_quantity expire_stale_locked ◌>>=◌
reserved_quantity-expire v w now at s h =
    aggregate-update (is_live v.id at) (is_stale w.id now) _ _ s.reservations
      λ r stale. ground arith

-- A row that is saved as held no more only lowers the totals.
pub reserved_quantity-close :
    (v : Inventory) (at : ℕ) (row : Reservation) (s : Stock)
    → is_held row.status ≡ false
    → reserved_quantity v at (save_reservation row s) ≤ reserved_quantity v at s
unfolding reserved_quantity
reserved_quantity-close v at row s h =
    aggregate-update_le (is_live v.id at) (λ r. r.id == row.id) (λ _. row) _ s.reservations
      λ r hit. ground arith

-- If that row was live, its quantity is gone from the total of its inventory.
pub reserved_quantity-drop :
    (v : Inventory) (at : ℕ) (row old : Reservation) (s : Stock)
    → is_held row.status ≡ false
    → find_reservation row.id s ≡ some old
    → is_live v.id at old ≡ true
    → reserved_quantity v at (save_reservation row s) + old.quantity ≤ reserved_quantity v at s
unfolding reserved_quantity
reserved_quantity-drop v at row old s h found live =
    aggregate-update_drop (is_live v.id at) (λ r. r.id == row.id) (λ _. row) _ s.reservations old
      (λ r hit. ground arith) found live

pub reserved_quantity-create :
    (v : Inventory) (at : ℕ) (row : Reservation) (s : Stock)
    → reserved_quantity v at (create_reservation row s).1
      ≡ reserved_quantity v at s + (if is_live v.id at row then row.quantity else 0)
unfolding reserved_quantity create_reservation ◌>>=◌
reserved_quantity-create v at row s =
    aggregate-create (is_live v.id at) (λ r. r.quantity) row s.reservations

-- Two of the steps always return.
pub expire_stale_locked-returns :
    (w : Inventory) (now : ℕ) (s : Stock)
    → expire_stale_locked w now s ≡ (ok tt, (expire_stale_locked w now s).1)
unfolding expire_stale_locked ◌>>=◌
expire_stale_locked-returns w now s = refl

pub create_reservation-returns :
    (row : Reservation) (s : Stock)
    → create_reservation row s ≡ (ok row, (create_reservation row s).1)
unfolding create_reservation ◌>>=◌
create_reservation-returns row s = refl

-- Expiring touches no inventory.
pub find_inventory-expire :
    (i : ℕ) (w : Inventory) (now : ℕ) (s : Stock)
    → find_inventory i (expire_stale_locked w now s).1 ≡ find_inventory i s
unfolding expire_stale_locked ◌>>=◌
find_inventory-expire i w now s = refl

-- A total depends on the inventory only by its key.
reserved_quantity-id :
    (v w : Inventory) (at : ℕ) (s : Stock)
    → v.id ≡ w.id
    → reserved_quantity v at s ≡ reserved_quantity w at s
unfolding reserved_quantity
reserved_quantity-id v w at s h = rw h refl

module _ (at : ℕ) (s : Stock) (c : IsCovered at s) where
  -- Time alone keeps the cover.
  pub IsCovered-later : (later : ℕ) → at ≤ later → IsCovered later s
  IsCovered-later later h = record {
    keyed = c.keyed;
    within = λ i v e. omega (arith, c.within i v e, reserved_quantity_later v at later s h);
  }

  pub expire_stale_locked-IsCovered :
      (w : Inventory) (now : ℕ) → now ≤ at → IsCovered at (expire_stale_locked w now s).1
  expire_stale_locked-IsCovered w now h = record {
    keyed = unfold expire_stale_locked ◌>>=◌ in c.keyed;
    within = λ i v e. omega (
      arith,
      c.within i v (unfold expire_stale_locked ◌>>=◌ in e),
      reserved_quantity-expire v w now at s h,
    );
  }

  pub create_reservation-IsCovered :
      (row : Reservation) (inventory : Inventory)
      → row.inventory_id ≡ inventory.id
      → find_inventory inventory.id s ≡ some inventory
      → row.quantity + reserved_quantity inventory at s ≤ inventory.on_hand
      → IsCovered at (create_reservation row s).1
  create_reservation-IsCovered row inventory own found room = record {
    keyed = unfold create_reservation ◌>>=◌ in c.keyed;
    within = λ i v e. create_within i v (unfold create_reservation ◌>>=◌ in e);
  }
    where
      create_within :
          (i : ℕ) (v : Inventory)
          → find_inventory i s ≡ some v
          → reserved_quantity v at (create_reservation row s).1 ≤ v.on_hand
      create_within i v e =
          let named : v.id ≡ i = ==→≡ _ _ (first-test (λ x. x.id == i) s.inventories v e) in
          elim (Bool-cases (v.id == inventory.id)) [
            | inl same ↦
                let it : v ≡ inventory =
                  some-injective _ _ (sym e ∙ rw (← named, ==→≡ _ _ same) found) in
                rw it (ground (arith, reserved_quantity-create inventory at row s))
            | inr other ↦ ground (arith, reserved_quantity-create v at row s, c.within i v e)
          ]

  pub save_reservation-IsCovered :
      (row : Reservation) → is_held row.status ≡ false → IsCovered at (save_reservation row s)
  save_reservation-IsCovered row h = record {
    keyed = c.keyed;
    within = λ i v e. omega (arith, c.within i v e, reserved_quantity-close v at row s h);
  }

  pub save_inventory-IsCovered :
      (inventory taken : Inventory)
      → taken.id ≡ inventory.id
      → reserved_quantity inventory at s ≤ taken.on_hand
      → IsCovered at (save_inventory taken s)
  unfolding reserved_quantity
  save_inventory-IsCovered inventory taken same room = record {
    keyed = save-IsKeyed (λ v. v.id) taken s.inventories c.keyed;
    within = λ i v e. save_within i v (sym (first-save (λ x. x.id) i taken s.inventories) ∙ e);
  }
    where
      save_within :
          (i : ℕ) (v : Inventory)
          → (if taken.id == i
              then elim (find_inventory i s) [ none ↦ none | some _ ↦ some taken ]
              else find_inventory i s)
            ≡ some v
          → reserved_quantity v at (save_inventory taken s) ≤ v.on_hand
      save_within i v e = elim (Bool-cases (taken.id == i)) [
        | inl hit ↦ elim (Option-cases (find_inventory i s)) [
          | inl gone ↦ absurd (cc (rw (hit, gone) at e))
          | inr (w, old) ↦
              let it : taken ≡ v = some-injective _ _ (rw (hit, old) at e) in
              rw (← it) (rw (← reserved_quantity-id taken inventory at s same) at room)
        ]
        | inr miss ↦ c.within i v (rw miss at e)
      ]

-- Taking a live hold off the shelf keeps the cover.
pub consume-IsCovered :
    (at : ℕ) (s : Stock) (row old : Reservation) (inventory taken : Inventory)
    → IsCovered at s
    → is_held row.status ≡ false
    → find_reservation row.id s ≡ some old
    → is_live inventory.id at old ≡ true
    → find_inventory inventory.id s ≡ some inventory
    → taken.id ≡ inventory.id
    → taken.on_hand + old.quantity ≡ inventory.on_hand
    → IsCovered at (save_reservation row (save_inventory taken s))
consume-IsCovered at s row old inventory taken c closed rowed live found same sum =
    save_inventory-IsCovered at (save_reservation row s)
      (save_reservation-IsCovered at s c row closed) inventory taken same
      (omega (
        arith,
        c.within inventory.id inventory found,
        reserved_quantity-drop inventory at row old s closed rowed live,
      ))
