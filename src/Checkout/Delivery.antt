-- ===== src/Checkout/Delivery.antt =====
-- Addresses, zones, tax policies and shipping methods: `address_snapshot` to `_methods_for_zone` and
-- `_owned_address` of apps/checkout/services.py.
use visio_backend.Prelude.{
  ℕ, Bool, false, ◌&&◌, ◌||◌, List, [], ◌∷◌, max, ltb, ◌==◌, if◌then◌else◌, Text, text_eq, strip,
  is_empty, first, rows, order_by, Error, Action, pure, raise, gets, or_raise, raise_if, ◌>>=◌,
  ◌>>◌, checkout_not_found, address_not_serviceable, shipping_configuration, tax_policy_unavailable,
}
use visio_backend.Database.{Db}
use visio_backend.Database.Accounts.{User, Address}
use visio_backend.Database.Checkout.{
  ShippingZone, ShippingMethod, TaxPolicy, AddressSnapshot, ShippingSnapshot,
}

-- What the services ask of Unicode and of the database's collation: `str.casefold`, `iexact` and the
-- order of texts.
pub record Collation : Type 0 where
  pub casefold : Text → Text
  pub iexact : Text → Text → Bool
  pub precedes : Text → Text → Bool

abbrev pub normalized_scope : Collation → Text → Text
normalized_scope collation value = collation.casefold (strip value)

abbrev pub address_snapshot : Address → AddressSnapshot
address_snapshot address = record {
  id = address.id;
  recipient_name = address.recipient_name;
  recipient_phone = address.recipient_phone;
  country_code = address.country_code;
  province = address.province;
  city = address.city;
  postal_code = address.postal_code;
  address_line1 = address.address_line1;
  address_line2 = address.address_line2;
}

abbrev pub shipping_snapshot : ShippingMethod → ShippingZone → ShippingSnapshot
shipping_snapshot method zone = record {
  id = method.id;
  code = method.code;
  name = method.name;
  zone_code = zone.code;
  delivery_min_days = method.delivery_min_days;
  delivery_max_days = method.delivery_max_days;
}

-- the filter of the queryset, and the two tests of the loop
abbrev pub serves : Collation → Address → ShippingZone → Bool
serves collation address zone =
    (zone.is_active && collation.iexact zone.country_code (strip address.country_code))
    && ((is_empty (normalized_scope collation zone.province)
          || text_eq (normalized_scope collation zone.province)
              (normalized_scope collation address.province))
        && (is_empty (normalized_scope collation zone.city)
            || text_eq (normalized_scope collation zone.city)
                (normalized_scope collation address.city)))

-- `2 if zone_city else 1 if zone_province else 0`
abbrev pub specificity : Collation → ShippingZone → ℕ
specificity collation zone =
    if is_empty (normalized_scope collation zone.city)
    then (if is_empty (normalized_scope collation zone.province) then 0 else 1)
    else 2

abbrev pub zone_before : Collation → ShippingZone → ShippingZone → Bool
zone_before collation a b =
    collation.precedes a.code b.code || (text_eq a.code b.code && ltb a.id b.id)

-- `max(...)` of the specificities of a list that is not empty
abbrev pub best_specificity : Collation → List ShippingZone → ℕ
best_specificity collation [] = 0
best_specificity collation (zone ∷ zones) =
    max (specificity collation zone) (best_specificity collation zones)

-- the one row of a list, or what to raise when there is none and when there are more
unfoldable pub the_only : {A : Type 0} → Error → Error → List A → Action Db A
the_only nothing several [] = raise nothing
the_only nothing several (x ∷ []) = pure x
the_only nothing several (_ ∷ _ ∷ _) = raise several

unfoldable pub best_zone : Collation → List ShippingZone → Action Db ShippingZone
best_zone collation matches =
    the_only address_not_serviceable shipping_configuration
      (rows (λ zone. specificity collation zone == best_specificity collation matches) matches)

unfoldable pub resolve_zone : Collation → Address → Action Db ShippingZone
resolve_zone collation address = do
  matches ← gets (λ db. rows (serves collation address) (order_by (zone_before collation) db.zones))
  best_zone collation matches

abbrev pub policy_before : TaxPolicy → TaxPolicy → Bool
policy_before a b = ltb a.id b.id

unfoldable pub active_tax_policy : Collation → Text → Action Db TaxPolicy
active_tax_policy collation country_code = do
  policies ← gets (λ db. order_by policy_before (
      rows (λ p. p.is_active && collation.iexact p.country_code (strip country_code))
        db.tax_policies))
  the_only tax_policy_unavailable tax_policy_unavailable policies

abbrev pub method_before : Collation → ShippingMethod → ShippingMethod → Bool
method_before collation a b =
    ltb a.sort_order b.sort_order
    || (a.sort_order == b.sort_order
        && (collation.precedes a.code b.code || (text_eq a.code b.code && ltb a.id b.id)))

unfoldable pub active_methods : Collation → ShippingZone → Db → List ShippingMethod
active_methods collation zone db =
    order_by (method_before collation) (rows (λ m. m.zone_id == zone.id && m.is_active) db.methods)

unfoldable pub method_for_zone : Collation → ShippingZone → Text → Action Db ShippingMethod
method_for_zone collation zone method_code = do
  methods ← gets (active_methods collation zone)
  the_only shipping_configuration shipping_configuration (
      rows (λ m. text_eq (collation.casefold m.code) (collation.casefold (strip method_code)))
        methods)

abbrev pub contains : Text → List Text → Bool
contains key [] = false
contains key (k ∷ keys) = text_eq key k || contains key keys

-- the loop of `_methods_for_zone`, with the keys that are folded so far
unfoldable pub has_ambiguous_code : Collation → List Text → List ShippingMethod → Bool
has_ambiguous_code collation folded [] = false
has_ambiguous_code collation folded (method ∷ methods) =
    contains (collation.casefold method.code) folded
    || has_ambiguous_code collation (collation.casefold method.code ∷ folded) methods

unfoldable pub methods_for_zone : Collation → ShippingZone → Action Db (List ShippingMethod)
methods_for_zone collation zone = do
  methods ← gets (active_methods collation zone)
  raise_if (has_ambiguous_code collation [] methods) shipping_configuration
  pure methods

unfoldable pub owned_address : User → ℕ → Action Db Address
owned_address user address_id = do
  or_raise (← gets (λ db. first (λ a. a.user_id == user.id && a.id == address_id) db.addresses))
      checkout_not_found
