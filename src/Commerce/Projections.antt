-- ===== src/Commerce/Projections.antt =====
-- `active_reserved_quantity` and `variant_availability_payload` of apps/commerce/projections.py.
use visio_backend.Prelude.{
  ℕ, ◌-◌, Bool, true, false, ◌&&◌, Option, none, some, ◌==◌, if◌then◌else◌, ltb, first, rows,
  aggregate,
}
use visio_backend.Commerce.Models.{Variant, Inventory, Stock, is_held}

-- `_inventory_record`
abbrev pub inventory_record : Variant → Stock → Option Inventory
inventory_record variant s = first (λ i. i.variant_id == variant.id && i.is_active) s.inventories

abbrev pub active_reserved_quantity : Inventory → ℕ → Stock → ℕ
active_reserved_quantity inventory at s =
    aggregate (λ r. is_held r.status && ltb at r.expires_at) (λ r. r.quantity)
      (rows (λ r. r.inventory_id == inventory.id && (is_held r.status && ltb at r.expires_at))
        s.reservations)

pub data AvailabilityStatus : Type 0 where
  unknown in_stock out_of_stock : AvailabilityStatus

-- the keys of the payload
pub record Availability : Type 0 where
  pub status : AvailabilityStatus
  pub authoritative : Bool
  pub max_quantity : Option ℕ
  pub updated_at : Option ℕ

-- the cases after the inventory is read, by its stock and the reserved quantity
abbrev pub stock_availability : Inventory → ℕ → Availability
stock_availability inventory reserved =
    if ltb inventory.on_hand reserved
    then record {
      status = unknown;
      authoritative = false;
      max_quantity = none;
      updated_at = some inventory.updated_at;
    }
    else record {
      status = if ltb 0 (inventory.on_hand - reserved) then in_stock else out_of_stock;
      authoritative = true;
      max_quantity = some (inventory.on_hand - reserved);
      updated_at = some inventory.updated_at;
    }

abbrev pub no_availability : Availability
no_availability = record {
  status = unknown;
  authoritative = false;
  max_quantity = none;
  updated_at = none;
}

abbrev pub availability_of : Option Inventory → Variant → ℕ → Stock → Availability
availability_of none variant at s = no_availability
availability_of (some inventory) variant at s =
    if variant.is_active
    then stock_availability inventory (active_reserved_quantity inventory at s)
    else no_availability

abbrev pub variant_availability_payload : Variant → ℕ → Stock → Availability
variant_availability_payload variant at s =
    availability_of (inventory_record variant s) variant at s
