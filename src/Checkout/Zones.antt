-- ===== src/Checkout/Zones.antt =====
-- `_resolve_zone` finds the one most specific zone that serves an address.
use visio_backend.Prelude.{
  ℕ, ◌≤◌, ◌<◌, ◌≡◌, refl, arith, Bool, true, ◌==◌, ==→≡, ==-refl, Bool-cases, List, [], ◌∷◌, rows,
  insert_by, order_by, ◌⊎◌, inl, inr, Error, Ends, Ends-mono, Ends-pure, Ends-raise, then_gets,
}
use visio_backend.Database.{Db}
use visio_backend.Database.Accounts.{Address}
use visio_backend.Database.Checkout.{ShippingZone}
use visio_backend.Checkout.Delivery.{
  Collation, serves, specificity, zone_before, best_specificity, the_only, best_zone, resolve_zone,
}

-- `x` is one of the list.
abbrev pub IsIn : {A : Type 0} → A → List A → Type 0
IsIn x [] = ⊥
IsIn x (y ∷ ys) = (x ≡ y) ⊎ IsIn x ys

module _ {A : Type 0} (x : A) where
  rows-IsIn : (p : A → Bool) (xs : List A) → IsIn x xs → p x ≡ true → IsIn x (rows p xs)
  rows-IsIn p [] i h = absurd i
  rows-IsIn p (y ∷ xs) (inl e) h = rw (← e, h) (inl refl)
  rows-IsIn p (y ∷ xs) (inr i) h =
      let rest = rows-IsIn p xs i h in
      elim (Bool-cases (p y)) [ inl t ↦ rw t (inr rest) | inr f ↦ rw f rest ]

  pub IsIn-rows : (p : A → Bool) (xs : List A) → IsIn x (rows p xs) → IsIn x xs × (p x ≡ true)
  IsIn-rows p [] i = absurd i
  IsIn-rows p (y ∷ xs) i = elim (Bool-cases (p y)) [
    | inl t ↦
        let j : IsIn x (y ∷ rows p xs) = rw t at i in
        elim j [
          | inl e ↦ (inl e, rw e t)
          | inr j ↦ let rest = IsIn-rows p xs j in (inr rest.0, rest.1)
        ]
    | inr f ↦ let rest = IsIn-rows p xs (rw f at i) in (inr rest.0, rest.1)
  ]

  insert_by-IsIn :
      (before : A → A → Bool) (y : A) (xs : List A)
      → IsIn x (y ∷ xs)
      → IsIn x (insert_by before y xs)
  insert_by-IsIn before y [] i = i
  insert_by-IsIn before y (z ∷ zs) i = elim (Bool-cases (before y z)) [
    | inl t ↦ rw t i
    | inr f ↦ rw f (elim i [
      | inl e ↦ inr (insert_by-IsIn before y zs (inl e))
      | inr j ↦ elim j [ inl e ↦ inl e | inr k ↦ inr (insert_by-IsIn before y zs (inr k)) ]
    ])
  ]

  order_by-IsIn : (before : A → A → Bool) (xs : List A) → IsIn x xs → IsIn x (order_by before xs)
  order_by-IsIn before [] i = i
  order_by-IsIn before (y ∷ xs) (inl e) = insert_by-IsIn before y _ (inl e)
  order_by-IsIn before (y ∷ xs) (inr i) =
      insert_by-IsIn before y _ (inr (order_by-IsIn before xs i))

  IsIn-insert_by :
      (before : A → A → Bool) (y : A) (xs : List A)
      → IsIn x (insert_by before y xs)
      → IsIn x (y ∷ xs)
  IsIn-insert_by before y [] i = i
  IsIn-insert_by before y (z ∷ zs) i = elim (Bool-cases (before y z)) [
    | inl t ↦ rw t at i
    | inr f ↦
        let j : IsIn x (z ∷ insert_by before y zs) = rw f at i in
        elim j [
          | inl e ↦ inr (inl e)
          | inr j ↦ elim (IsIn-insert_by before y zs j) [ inl e ↦ inl e | inr k ↦ inr (inr k) ]
        ]
  ]

  pub IsIn-order_by :
      (before : A → A → Bool) (xs : List A) → IsIn x (order_by before xs) → IsIn x xs
  IsIn-order_by before [] i = i
  IsIn-order_by before (y ∷ xs) i = elim (IsIn-insert_by before y (order_by before xs) i) [
    | inl e ↦ inl e
    | inr j ↦ inr (IsIn-order_by before xs j)
  ]

specificity_le :
    (collation : Collation) (x : ShippingZone) (xs : List ShippingZone)
    → IsIn x xs
    → specificity collation x ≤ best_specificity collation xs
specificity_le collation x [] i = absurd i
specificity_le collation x (y ∷ ys) (inl e) = rw e (ground arith)
specificity_le collation x (y ∷ ys) (inr i) = ground (arith, specificity_le collation x ys i)

-- `zone` serves the address, and any zone that does is this one or less specific.
pub record IsBest (collation : Collation) (address : Address) (s : Db) (zone : ShippingZone)
    : Type 0 where
  pub listed : IsIn zone s.zones
  pub serving : serves collation address zone ≡ true
  pub best :
      (other : ShippingZone)
      → IsIn other s.zones
      → serves collation address other ≡ true
      → (other ≡ zone) ⊎ (specificity collation other < specificity collation zone)

pub the_only-IsIn :
    {A : Type 0} (nothing several : Error) (xs : List A) (s : Db)
    → Ends
        (λ x t. (t ≡ s) × IsIn x xs × ((y : A) → IsIn y xs → y ≡ x))
        (λ _ t. t ≡ s)
        (the_only nothing several xs s)
unfolding the_only
the_only-IsIn nothing several [] s = Ends-raise nothing s refl
the_only-IsIn nothing several (x ∷ []) s =
    Ends-pure x s (refl, inl refl, λ y i. elim i [ inl e ↦ e | inr j ↦ absurd j ])
the_only-IsIn nothing several (_ ∷ _ ∷ _) s = Ends-raise several s refl

-- Resolving an address writes nothing, and a zone that is returned is the one most specific of the
-- active zones that serve the address: any other that serves it is strictly less specific.
pub resolve_zone-IsBest :
    (collation : Collation) (address : Address) (s : Db)
    → Ends
        (λ zone t. (t ≡ s) × IsBest collation address s zone)
        (λ _ t. t ≡ s)
        (resolve_zone collation address s)
unfolding resolve_zone best_zone
resolve_zone-IsBest collation address s = then_gets _ _ s (
    Ends-mono _ _ _ _ _ (λ zone t (same, among, only). (same, found zone among only)) (λ _ _ h. h)
      (the_only-IsIn _ _ top_zones s))
  where
    ordered : List ShippingZone
    ordered = order_by (zone_before collation) s.zones

    matches : List ShippingZone
    matches = rows (serves collation address) ordered

    is_top : ShippingZone → Bool
    is_top zone = specificity collation zone == best_specificity collation matches

    top_zones : List ShippingZone
    top_zones = rows is_top matches

    compared :
        (top : ℕ) (zone other : ShippingZone)
        → specificity collation other ≤ top
        → specificity collation zone ≡ top
        → (specificity collation other ≡ top → other ≡ zone)
        → (other ≡ zone) ⊎ (specificity collation other < specificity collation zone)
    compared top zone other le is alone = elim (Bool-cases (specificity collation other == top)) [
      | inl same ↦ inl (alone (==→≡ _ _ same))
      | inr apart ↦ inr (ground arith)
    ]

    found :
        (zone : ShippingZone)
        → IsIn zone top_zones
        → ((y : ShippingZone) → IsIn y top_zones → y ≡ zone)
        → IsBest collation address s zone
    found zone among only =
        let top = IsIn-rows zone is_top matches among in
        let matching = IsIn-rows zone (serves collation address) ordered top.0 in
        record {
          listed = IsIn-order_by zone (zone_before collation) s.zones matching.0;
          serving = matching.1;
          best = λ other i served.
              let rival : IsIn other matches =
                rows-IsIn other (serves collation address) ordered
                  (order_by-IsIn other (zone_before collation) s.zones i) served in
              compared (best_specificity collation matches) zone other
                (specificity_le collation other matches rival) (==→≡ _ _ top.1)
                (λ e. only other (rows-IsIn other is_top matches rival (rw e (==-refl _))));
        }
