-- ===== src/Commerce/Tests.antt =====
-- Runs of the services of apps/commerce, and the theorems at a shelf with one hold.
use visio_backend.Prelude.{
  ℕ, ◌≡◌, refl, true, pos, err, some, [], ◌∷◌, List, arith, inventory_unavailable,
  reservation_state, Ends,
}
use visio_backend.Commerce.Models.{
  ProductStatus, Variant, Inventory, Reservation, ReservationStatus, Stock, find_inventory,
  find_reservation,
}
use visio_backend.Commerce.Services.{
  default_reservation_ttl, reserved_quantity, reserve_variant, consume_reservation,
  release_reservation, set_on_hand, services,
}
use visio_backend.Commerce.Coverage.{IsCovered}
use visio_backend.Commerce.NoOversell.{Reserved, reserve_variant-Reserved}
use visio_backend.Commerce.Consumption.{
  Taken, consume_reservation-Taken, consume_reservation-expired,
}
use visio_backend.Commerce.Availability.{
  consume_reservation-returns, release_reservation-returns, reserve_variant-returns,
}
use visio_backend.Commerce.Release.{Freed, release_reservation-Freed, set_on_hand-IsCovered}
use visio_backend.Commerce.History.{
  Call, reserve, release, consume, count, perform_all, perform_all-IsCovered, perform_all-final,
}

abbrev pub shirt : Variant
shirt = record {
  id = 10;
  product = record { id = 5; slug = 6; name = 7; status = ProductStatus.published };
  sku = 8;
  is_active = true;
}

abbrev shelf_of : ℕ → Inventory
shelf_of n = record { id = 1; variant_id = 10; on_hand = n; is_active = true; updated_at = 0 }

abbrev hold : ReservationStatus → Reservation
hold status = record {
  id = 50;
  inventory_id = 1;
  quantity = 2;
  status = status;
  expires_at = 1000;
  updated_at = 100;
}

abbrev empty : Stock
empty = record { variants = shirt ∷ []; inventories = shelf_of 3 ∷ []; reservations = [] }

abbrev pub held : Stock
held = record {
  variants = shirt ∷ [];
  inventories = shelf_of 3 ∷ [];
  reservations = hold ReservationStatus.active ∷ [];
}

reserve_too_much :
    reserve_variant 50 10 (pos 4) default_reservation_ttl 100 empty
    ≡ (err inventory_unavailable, empty)
unfolding services
reserve_too_much = refl

reserve_two : (reserve_variant 50 10 (pos 2) default_reservation_ttl 100 empty).1 ≡ held
unfolding services
reserve_two = refl

consume_two :
    (consume_reservation 50 200 held).1.inventories ≡ record (shelf_of 1) { updated_at = 200 } ∷ []
unfolding services
consume_two = refl

consume_late : consume_reservation 50 1000 held ≡ (err reservation_state, held)
unfolding services
consume_late = refl

empty-IsCovered : IsCovered 100 empty
unfolding reserved_quantity
empty-IsCovered = record { keyed = (refl, tt); within = λ i v e. ground arith }

pub held-IsCovered : IsCovered 100 held
unfolding reserved_quantity
held-IsCovered = record { keyed = (refl, tt); within = λ i v e. ground arith }

reserve_variant-Reserved_example :
    Ends
      (Reserved (pos 2) 100 empty)
      (λ _ t. t ≡ empty)
      (reserve_variant 50 10 (pos 2) default_reservation_ttl 100 empty)
reserve_variant-Reserved_example =
    reserve_variant-Reserved 50 10 (pos 2) default_reservation_ttl 100 empty empty-IsCovered

consume_reservation-Taken_example :
    Ends (Taken 50 100 held) (λ _ t. t ≡ held) (consume_reservation 50 100 held)
consume_reservation-Taken_example = consume_reservation-Taken 50 100 held held-IsCovered

consume_reservation-expired_example :
    Ends (λ _ _. ⊥) (λ _ t. t ≡ held) (consume_reservation 50 1000 held)
consume_reservation-expired_example =
    consume_reservation-expired 50 1000 held (hold ReservationStatus.active) refl (omega arith)

release_reservation-Freed_example :
    Ends (Freed 50 100 held) (λ _ t. t ≡ held) (release_reservation 50 100 held)
release_reservation-Freed_example = release_reservation-Freed 50 100 held held-IsCovered

set_on_hand-IsCovered_example :
    Ends
      (λ row t. IsCovered 100 t × (row.on_hand ≡ 9) × (find_inventory row.id t ≡ some row))
      (λ _ t. t ≡ held)
      (set_on_hand 10 (pos 9) 100 held)
set_on_hand-IsCovered_example = set_on_hand-IsCovered 10 (pos 9) 100 held held-IsCovered

abbrev busy : List (ℕ × Call)
busy =
    (200, reserve 51 10 (pos 1) default_reservation_ttl)
    ∷ (300, consume 50)
    ∷ (400, release 51)
    ∷ (500, count 10 (pos 7))
    ∷ []

perform_all-IsCovered_example : IsCovered 500 (perform_all busy held)
perform_all-IsCovered_example = perform_all-IsCovered busy 100 held held-IsCovered (omega arith)

abbrev sold : Stock
sold = record held { reservations = hold ReservationStatus.consumed ∷ [] }

perform_all-final_example :
    find_reservation 50 (perform_all busy sold) ≡ some (hold ReservationStatus.consumed)
perform_all-final_example =
    perform_all-final 50 (hold ReservationStatus.consumed) refl busy sold refl

consume_reservation-returns_example :
    Ends (Taken 50 100 held) (λ _ _. ⊥) (consume_reservation 50 100 held)
consume_reservation-returns_example =
    consume_reservation-returns 50 100 held (hold ReservationStatus.active) (shelf_of 3)
      held-IsCovered refl refl (omega arith) refl

release_reservation-returns_example :
    Ends (Freed 50 100 held) (λ _ _. ⊥) (release_reservation 50 100 held)
release_reservation-returns_example =
    release_reservation-returns 50 100 held (hold ReservationStatus.active) (shelf_of 3)
      held-IsCovered refl refl refl

reserve_variant-returns_example :
    Ends
      (Reserved (pos 2) 100 empty)
      (λ _ _. ⊥)
      (reserve_variant 50 10 (pos 2) default_reservation_ttl 100 empty)
unfolding reserved_quantity
reserve_variant-returns_example =
    reserve_variant-returns 50 10 (pos 2) default_reservation_ttl 100 empty (shelf_of 3) shirt
      empty-IsCovered refl refl refl refl refl refl (omega arith)
