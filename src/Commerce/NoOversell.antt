-- ===== src/Commerce/NoOversell.antt =====
-- Every operation of apps/commerce/services.py keeps the cover of Coverage.antt, whether it returns
-- or raises.
use visio_backend.Prelude.{
  ℕ, ◌+◌, ◌≤◌, ◌<◌, ◌≡◌, refl, ◌∙◌, some, arith, ℤ, pos_part, Ends, Ends-eq, Ends-atomic, Ends-pure,
  then_ok, then_read, then_gets, then_or_raise, then_raise_if, first-key,
}
use visio_backend.Commerce.Models.{Inventory, Variant, active, Reservation, Stock, find_inventory}
use visio_backend.Commerce.Services.{
  reserved_quantity, expire_stale_locked, available_quantity, locked_inventory, create_reservation,
  reserve_variant,
}
use visio_backend.Commerce.Coverage.{
  IsCovered, expire_stale_locked-returns, create_reservation-returns, find_inventory-expire,
  reserved_quantity-create, reserved_quantity-expire, expire_stale_locked-IsCovered,
  create_reservation-IsCovered,
}

-- `locked_inventory` only reads, and what it finds is the row of its key.
locked_inventory-reads :
    (variant_id now : ℕ) (s : Stock)
    → IsCovered now s
    → Ends
        (λ (found : Inventory × Variant) t. (t ≡ s) × (find_inventory found.0.id s ≡ some found.0))
        (λ _ t. t ≡ s)
        (locked_inventory variant_id s)
unfolding locked_inventory
locked_inventory-reads variant_id now s c = then_gets _ _ s (
    then_or_raise _ _ _ s (λ _. refl)
      λ inventory found. then_gets _ _ s (
        then_or_raise _ _ _ s (λ _. refl)
          λ variant _.
            Ends-pure _ s (refl, first-key (λ v. v.id) _ s.inventories inventory c.keyed found)))

available_quantity-reads :
    (inventory : Inventory) (now : ℕ) (s : Stock)
    → Ends
        (λ n t. (t ≡ s) × (n + reserved_quantity inventory now s ≡ inventory.on_hand))
        (λ _ t. t ≡ s)
        (available_quantity inventory now s)
unfolding available_quantity
available_quantity-reads inventory now s =
    then_gets _ _ s (then_raise_if _ _ _ s (λ _. refl) λ enough. Ends-pure _ s (refl, ground arith))

-- What a new hold means: the stock stays covered, and `quantity` more is reserved from its inventory.
abbrev pub Reserved : ℤ → ℕ → Stock → Reservation → Stock → Type 0
Reserved quantity now s row t =
    IsCovered now t
    × ((v : Inventory)
        → v.id ≡ row.inventory_id
        → reserved_quantity v now t ≡ reserved_quantity v now s + pos_part quantity)

reserve_locked :
    (quantity : ℤ) (now : ℕ) (s : Stock) (inventory : Inventory) (row : Reservation)
    → IsCovered now s
    → find_inventory inventory.id s ≡ some inventory
    → row.inventory_id ≡ inventory.id
    → row.quantity ≡ pos_part quantity
    → row.status ≡ active
    → now < row.expires_at
    → pos_part quantity + reserved_quantity inventory now s ≤ inventory.on_hand
    → Reserved quantity now s row (create_reservation row (expire_stale_locked inventory now s).1).1
reserve_locked quantity now s inventory row c found own amount held lasts room = (
  create_reservation-IsCovered now stale
      (expire_stale_locked-IsCovered now s c inventory now (omega arith)) row inventory own
      (find_inventory-expire inventory.id inventory now s ∙ found)
      (omega (arith, same_total inventory)),
  λ v same. rw (reserved_quantity-create v now row stale, same_total v, same, held) (ground arith),
)
  where
    stale : Stock
    stale = (expire_stale_locked inventory now s).1

    same_total : (v : Inventory) → reserved_quantity v now stale ≡ reserved_quantity v now s
    same_total v = reserved_quantity-expire v inventory now now s (omega arith)

-- From covered stock, a reservation that is returned keeps the stock covered and holds exactly its
-- quantity more; one that is refused leaves the stock as it was.
pub reserve_variant-Reserved :
    (uuid4 variant_id : ℕ) (quantity ttl : ℤ) (now : ℕ) (s : Stock)
    → IsCovered now s
    → Ends
        (Reserved quantity now s)
        (λ _ t. t ≡ s)
        (reserve_variant uuid4 variant_id quantity ttl now s)
unfolding reserve_variant
reserve_variant-Reserved uuid4 variant_id quantity ttl now s c =
    then_raise_if _ _ _ s (λ _. refl)
      λ positive.
        then_raise_if _ _ _ s (λ _. refl)
          λ lasts. Ends-atomic _ s (
            then_read (λ (found : Inventory × Variant). find_inventory found.0.id s ≡ some found.0)
              _ _ s (locked_inventory-reads variant_id now s c) (λ _. refl)
              λ found e.
                then_raise_if _ _ _ s (λ _. refl)
                  λ _. then_ok _ _ s (expire_stale_locked-returns found.0 now s) (
                    then_read
                      (λ n.
                        n + reserved_quantity found.0 now (expire_stale_locked found.0 now s).1
                        ≡ found.0.on_hand)
                      _ _ _ (available_quantity-reads found.0 now _) (λ _. refl)
                      λ available total.
                        then_raise_if _ _ _ _ (λ _. refl)
                          λ enough. Ends-eq _ (create_reservation-returns _ _) (
                            reserve_locked quantity now s found.0 _ c e refl refl refl
                              (ground arith)
                              (ground
                                (arith, reserved_quantity-expire found.0 found.0 now now s)))))
