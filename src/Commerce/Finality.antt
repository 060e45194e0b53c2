-- ===== src/Commerce/Finality.antt =====
-- A reservation that is released, consumed or expired is never written again by the services.
use visio_backend.Prelude.{
  ℕ, ◌≡◌, ◌≢◌, refl, sym, ◌∙◌, true, false, some, arith, ◌==◌, ℤ, ◌>>=◌, Ends, Ends-mono, Ends-eq,
  Ends-atomic, Ends-pure, Ends-raise, Ends-branch, then_ok, then_read, then_gets, then_or_raise,
  then_modify, then_raise_if, first-test, ==→≡, first-save_other, first-update, first-create,
}
use mathlib.Core.Option.{some-injective}
use mathlib.Core.Path.{subst}
use visio_backend.Commerce.Models.{
  Inventory, active, released, consumed, expired, Reservation, ReservationStatus, Stock, is_held,
  find_reservation, save_reservation,
}
use visio_backend.Commerce.Services.{
  is_stale, expire_stale_locked, create_reservation, available_quantity, locked_inventory,
  reservation_inventory_id, release_locked, consume_locked, reserve_variant, release_reservation,
  consume_reservation, set_on_hand,
}
use visio_backend.Commerce.Coverage.{expire_stale_locked-returns, create_reservation-returns}

found_self :
    (i : ℕ) (row : Reservation) (s : Stock)
    → find_reservation i s ≡ some row
    → find_reservation row.id s ≡ some row
found_self i row s found =
    subst (λ k. find_reservation k s ≡ some row)
      (sym (==→≡ _ _ (first-test (λ x. x.id == i) s.reservations row found))) found

module _ (j : ℕ) (r : Reservation) (closed : is_held r.status ≡ false) where
  -- `r` is what the key `j` finds.
  abbrev pub Stays : Stock → Type 0
  Stays s = find_reservation j s ≡ some r

  expire-Stays :
      (w : Inventory) (now : ℕ) (s : Stock) → Stays s → Stays (expire_stale_locked w now s).1
  unfolding expire_stale_locked ◌>>=◌
  expire-Stays w now s h =
      rw
        (
          first-update (λ x. x.id == j) (is_stale w.id now)
              (λ x. record x { status = expired; updated_at = now }) s.reservations (λ x. refl),
          h,
        )
        (ground arith)

  create-Stays : (row : Reservation) (s : Stock) → Stays s → Stays (create_reservation row s).1
  unfolding create_reservation ◌>>=◌
  create-Stays row s h = rw (first-create (λ x. x.id == j) row s.reservations, h) refl

  -- A row that is saved was held before, so it is another one.
  save-Stays :
      (row old : Reservation) (s : Stock)
      → find_reservation row.id s ≡ some old
      → is_held old.status ≡ true
      → Stays s
      → Stays (save_reservation row s)
  save-Stays row old s found held h =
      first-save_other (λ x. x.id) j row s.reservations (λ same. other same) ∙ h
    where
      other : j ≢ row.id
      other same =
          let it : r ≡ old =
            some-injective _ _
              (sym h ∙ subst (λ i. find_reservation i s ≡ some old) (sym same) found) in
          absurd (cc)

  available_quantity-Stays :
      (w : Inventory) (now : ℕ) (s : Stock)
      → Ends (λ _ t. (t ≡ s) × Unit {0}) (λ _ t. t ≡ s) (available_quantity w now s)
  unfolding available_quantity
  available_quantity-Stays w now s =
      then_gets _ _ s (then_raise_if _ _ _ s (λ _. refl) λ _. Ends-pure _ s (refl, tt))

  locked_inventory-Stays :
      (variant_id : ℕ) (s : Stock)
      → Ends (λ _ t. (t ≡ s) × Unit {0}) (λ _ t. t ≡ s) (locked_inventory variant_id s)
  unfolding locked_inventory
  locked_inventory-Stays variant_id s = then_gets _ _ s (
      then_or_raise _ _ _ s (λ _. refl)
        λ _ _. then_gets _ _ s (then_or_raise _ _ _ s (λ _. refl) λ _ _. Ends-pure _ s (refl, tt)))

  reservation_inventory_id-Stays :
      (i : ℕ) (s : Stock)
      → Ends (λ _ t. (t ≡ s) × Unit {0}) (λ _ t. t ≡ s) (reservation_inventory_id i s)
  unfolding reservation_inventory_id
  reservation_inventory_id-Stays i s =
      then_gets _ _ s (then_or_raise _ _ _ s (λ _. refl) λ _ _. Ends-pure _ s (refl, tt))

  pub reserve_variant-Stays :
      (uuid4 variant_id : ℕ) (quantity ttl : ℤ) (now : ℕ) (s : Stock)
      → Stays s
      → Ends (λ _ t. Stays t) (λ _ t. Stays t) (reserve_variant uuid4 variant_id quantity ttl now s)
  unfolding reserve_variant
  reserve_variant-Stays uuid4 variant_id quantity ttl now s h =
      then_raise_if _ _ _ s (λ _. h)
        λ _.
          then_raise_if _ _ _ s (λ _. h)
            λ _. Ends-atomic _ s (
              then_read (λ _. Unit {0}) _ _ s (locked_inventory-Stays variant_id s) (λ _. h)
                λ found _.
                  then_raise_if _ _ _ s (λ _. h)
                    λ _. then_ok _ _ s (expire_stale_locked-returns found.0 now s) (
                      then_read (λ _. Unit {0}) _ _ _ (available_quantity-Stays found.0 now _)
                        (λ _. h)
                        λ _ _.
                          then_raise_if _ _ _ _ (λ _. h)
                            λ _.
                              Ends-eq _ (create_reservation-returns _ _)
                                (create-Stays _ _ (expire-Stays found.0 now s h))))

  release_locked-Stays :
      (status : ReservationStatus) (row : Reservation) (now : ℕ) (s : Stock)
      → row.status ≡ status
      → find_reservation row.id s ≡ some row
      → Stays s
      → Ends (λ _ t. Stays t) (λ _ _. Unit {0}) (release_locked status row now s)
  unfolding release_locked
  release_locked-Stays released row now s is found h = Ends-pure row s h
  release_locked-Stays expired row now s is found h = Ends-pure row s h
  release_locked-Stays consumed row now s is found h = Ends-raise _ s tt
  release_locked-Stays active row now s is found h =
      then_modify _ _ s (Ends-pure _ _ (save-Stays _ row s found (rw is refl) h))

  consume_locked-Stays :
      (w : Inventory) (row : Reservation) (now : ℕ) (s : Stock)
      → is_held row.status ≡ true
      → find_reservation row.id s ≡ some row
      → Stays s
      → Ends (λ _ t. Stays t) (λ _ _. Unit {0}) (consume_locked w row now s)
  unfolding consume_locked
  consume_locked-Stays w row now s is found h =
      Ends-branch _ _ _ s (λ _. then_modify _ _ _ (Ends-raise _ _ tt))
        λ _.
          then_raise_if _ _ _ s (λ _. tt)
            λ _.
              then_modify _ _ s (then_modify _ _ _ (Ends-pure _ _ (save-Stays _ row s found is h)))

  pub release_reservation-Stays :
      (i now : ℕ) (s : Stock)
      → Stays s
      → Ends (λ _ t. Stays t) (λ _ t. Stays t) (release_reservation i now s)
  unfolding release_reservation
  release_reservation-Stays i now s h =
      then_read (λ _. Unit {0}) _ _ s (reservation_inventory_id-Stays i s) (λ _. h)
        λ _ _. Ends-atomic _ s (
          then_gets _ _ s (
            then_or_raise _ _ _ s (λ _. h)
              λ w _. then_ok _ _ s (expire_stale_locked-returns w now s) (
                then_gets _ _ _ (
                  then_or_raise _ _ _ _ (λ _. h)
                    λ row found.
                      Ends-mono _ _ _ _ _ (λ _ _ k. k) (λ _ _ _. h)
                        (release_locked-Stays row.status row now _ refl
                          (found_self i row (expire_stale_locked w now s).1 found)
                          (expire-Stays w now s h))))))

  pub consume_reservation-Stays :
      (i now : ℕ) (s : Stock)
      → Stays s
      → Ends (λ _ t. Stays t) (λ _ t. Stays t) (consume_reservation i now s)
  unfolding consume_reservation
  consume_reservation-Stays i now s h =
      then_read (λ _. Unit {0}) _ _ s (reservation_inventory_id-Stays i s) (λ _. h)
        λ _ _. Ends-atomic _ s (
          then_gets _ _ s (
            then_or_raise _ _ _ s (λ _. h)
              λ w _. then_ok _ _ s (expire_stale_locked-returns w now s) (
                then_gets _ _ _ (
                  then_or_raise _ _ _ _ (λ _. h)
                    λ row found.
                      then_raise_if _ _ _ _ (λ _. h)
                        λ held.
                          Ends-mono _ _ _ _ _ (λ _ _ k. k) (λ _ _ _. h)
                            (consume_locked-Stays w row now _ (ground arith)
                              (found_self i row (expire_stale_locked w now s).1 found)
                              (expire-Stays w now s h))))))

  pub set_on_hand-Stays :
      (variant_id : ℕ) (quantity : ℤ) (now : ℕ) (s : Stock)
      → Stays s
      → Ends (λ _ t. Stays t) (λ _ t. Stays t) (set_on_hand variant_id quantity now s)
  unfolding set_on_hand
  set_on_hand-Stays variant_id quantity now s h =
      then_raise_if _ _ _ s (λ _. h)
        λ _. Ends-atomic _ s (
          then_gets _ _ s (
            then_or_raise _ _ _ s (λ _. h)
              λ w _. then_ok _ _ s (expire_stale_locked-returns w now s) (
                then_gets _ _ _ (
                  then_raise_if _ _ _ _ (λ _. h)
                    λ _. then_modify _ _ _ (Ends-pure _ _ (expire-Stays w now s h))))))
