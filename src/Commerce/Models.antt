-- ===== src/Commerce/Models.antt =====
-- The rows of apps/commerce/models.py, joined with the catalog rows that the services read. Times
-- are seconds, UUIDs are numbers, amounts are whole tomans; a table is a list of rows.
use visio_backend.Prelude.{ℕ, Bool, true, false, Option, List, ◌==◌, first, save}

pub data ProductStatus : Type 0 where
  draft published archived : ProductStatus

-- `catalog.Product`
pub record Product : Type 0 where
  pub id : ℕ
  pub slug : ℕ
  pub name : ℕ
  pub status : ProductStatus

-- `catalog.ProductVariant`, with `variant.product`
pub record Variant : Type 0 where
  pub id : ℕ
  pub product : Product
  pub sku : ℕ
  pub is_active : Bool

-- `VariantInventory`
pub record Inventory : Type 0 where
  pub id : ℕ
  pub variant_id : ℕ
  pub on_hand : ℕ
  pub is_active : Bool
  pub updated_at : ℕ

pub data ReservationStatus : Type 0 where
  active released consumed expired : ReservationStatus

-- `InventoryReservation`
pub record Reservation : Type 0 where
  pub id : ℕ
  pub inventory_id : ℕ
  pub quantity : ℕ
  pub status : ReservationStatus
  pub expires_at : ℕ
  pub updated_at : ℕ

pub record Stock : Type 0 where
  pub variants : List Variant
  pub inventories : List Inventory
  pub reservations : List Reservation

abbrev pub is_published : ProductStatus → Bool
is_published published = true
is_published _ = false

abbrev pub is_held : ReservationStatus → Bool
is_held active = true
is_held _ = false

abbrev pub find_variant : ℕ → Stock → Option Variant
find_variant i s = first (λ v. v.id == i) s.variants

abbrev pub find_inventory : ℕ → Stock → Option Inventory
find_inventory i s = first (λ v. v.id == i) s.inventories

abbrev pub find_reservation : ℕ → Stock → Option Reservation
find_reservation i s = first (λ r. r.id == i) s.reservations

-- `inventory.save(...)`
abbrev pub save_inventory : Inventory → Stock → Stock
save_inventory row s = record s { inventories = save (λ v. v.id) row s.inventories }

-- `reservation.save(...)`
abbrev pub save_reservation : Reservation → Stock → Stock
save_reservation row s = record s { reservations = save (λ r. r.id) row s.reservations }
