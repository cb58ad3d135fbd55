-- ===== src/Inventory/State.antt =====
-- The tables that backend/src/services/inventory.service.ts reads and writes: products, each with
-- its optional inventory row, the movement log, and the audit trail.
--
-- Identifiers (ids, slugs, order ids) are only compared and sorted: they are numbers in collation
-- order. Quantities are numbers, since CHECK constraints keep the columns from being negative
-- (database/prisma/migrations/20261018000000_add_commerce_nonnegative_checks).
use vedhicfoods.Prelude.{ℕ, Bool, ◌||◌, Option, List, [], ◌∷◌, ◌==◌, if◌then◌else◌}
use vedhicfoods.Prelude.Int.{ℤ}
use vedhicfoods.Result.{Result, ok, err, not_found, ◌>>=◌}

pub data InventoryStatus : Type 0 where
  in_stock low_stock out_of_stock backorder : InventoryStatus

pub data Operation : Type 0 where
  add_stock remove_stock reserve_stock release_reservation confirm_deduction restock
        manual_adjustment :
      Operation

pub record Inventory : Type 0 where
  pub available : ℕ
  pub reserved : ℕ
  pub sold : ℕ
  pub threshold : ℕ
  pub status : InventoryStatus

pub record Product : Type 0 where
  pub id : ℕ
  pub slug : ℕ
  pub stock : ℕ
  pub inventory : Option Inventory

-- A row of the movement log; the actor and the free-text reason are left out.
pub record InventoryLog : Type 0 where
  pub product : ℕ
  pub operation : Operation
  pub previous_quantity : ℕ
  pub new_quantity : ℕ
  pub quantity_change : ℤ
  pub previous_reserved : ℕ
  pub new_reserved : ℕ
  pub order : Option ℕ

pub data AuditAction : Type 0 where
  inventory_adjusted stock_reserved stock_released stock_deducted stock_restocked
        order_status_updated order_cancelled order_created delivery_created payment_confirmed
        payment_failed payment_refunded payment_initiated settlement_anomaly signature_invalid
        order_payment_failed delivery_status_changed delivery_staff_assigned :
      AuditAction

pub record Audit : Type 0 where
  pub action : AuditAction
  pub entity : Option ℕ

-- `catalog_cached` says whether the storefront's catalogue caches may hold entries. The newest
-- log and audit rows come first.
pub record Db : Type 0 where
  pub products : List Product
  pub logs : List InventoryLog
  pub audits : List Audit
  pub catalog_cached : Bool

-- A line of an order: `productId` may be an id or a slug, and the number is unchecked.
pub record ReservationItem : Type 0 where
  pub product : ℕ
  pub quantity : ℤ

abbrev pub max_inventory_quantity : ℕ
max_inventory_quantity = 2_147_483_647

-- `OR: [{ id: key }, { slug: key }]`
abbrev pub has_key : ℕ → Product → Bool
has_key key p = p.id == key || p.slug == key

-- `findFirst` by id or slug, and the writes of the same transaction to the row that it found: the
-- row is read, rewritten by `step`, and put back in its place.
unfoldable pub with_product {ℓ} :
    {A : Type ℓ} → ℕ → (Product → Result (Product × A)) → List Product → Result (List Product × A)
with_product key step [] = err not_found
with_product key step (p ∷ ps) =
    let rest = with_product key step ps in
    if has_key key p
    then (step p >>= λ r. ok (r.0 ∷ ps, r.1))
    else (rest >>= λ r. ok (p ∷ r.0, r.1))
