-- ===== src/Inventory/Admin.antt =====
-- backend/src/services/inventory.service.ts, the administrator's methods: manual adjustment, the
-- settings of one product, and the formatted record. The input has passed the schemas of
-- backend/src/types/inventory.types.ts, but the service's own guards are kept.
use vedhicfoods.Prelude.{
  ℕ, ◌+◌, ◌-◌, Bool, false, ◌&&◌, Option, none, some, leb, ltb, ◌==◌, if◌then◌else◌,
}
use vedhicfoods.Prelude.Int.{ℤ, pos, pos_part, sub_ℕ}
use vedhicfoods.Result.{Result, ok, err, bad_request, require, ◌>>=◌, ◌>>◌}
use vedhicfoods.Inventory.State.{
  Inventory, Product, InventoryStatus, InventoryLog, AuditAction, Operation, max_inventory_quantity,
  with_product,
}
use vedhicfoods.Inventory.Rows.{Change, compute_status, write_row}
use vedhicfoods.Inventory.Service.{
  Tx, MovedItem, get_or_create, save, record_log, audited, is_positive,
}

-- The `switch` of `adjustStock`: the new available and sold quantities, and the logged change.
pub record Adjusted : Type 0 where
  pub available : ℕ
  pub sold : ℕ
  pub change : ℤ

unfoldable pub adjust_quantities : Operation → ℕ → Inventory → Result Adjusted
adjust_quantities Operation.add_stock qty row =
    ok (record { available = row.available + qty; sold = row.sold; change = pos qty })
adjust_quantities Operation.restock qty row = ok (record {
  available = row.available + qty;
  sold = if leb qty row.sold then row.sold - qty else row.sold;
  change = pos qty;
})
adjust_quantities Operation.remove_stock qty row =
    if ltb row.available qty
    then err bad_request
    else ok (record { available = row.available - qty; sold = row.sold; change = sub_ℕ 0 qty })
adjust_quantities Operation.manual_adjustment qty row =
    ok (record { available = qty; sold = row.sold; change = sub_ℕ qty row.available })
adjust_quantities _ qty row = err bad_request

-- The transaction of `adjustStock` on the row that was locked.
unfoldable pub adjust_row :
    Operation → ℕ → Option ℕ → Inventory → Inventory → Result (Option Change)
unfolding adjust_quantities write_row compute_status
adjust_row op qty reorder_threshold snapshot locked = do
  a ← adjust_quantities op qty locked
  require (leb a.available max_inventory_quantity) bad_request
  let threshold : ℕ = elim reorder_threshold [ none ↦ snapshot.threshold | some given ↦ given ]
  write_row (record {
    row = record {
      available = a.available;
      reserved = locked.reserved;
      sold = a.sold;
      threshold = threshold;
      status = compute_status a.available threshold none;
    };
    stock = some a.available;
    previous_quantity = locked.available;
    new_quantity = a.available;
    quantity_change = a.change;
    previous_reserved = locked.reserved;
    new_reserved = locked.reserved;
    moved = qty;
  })

-- `updateInventorySettings`: the row is not locked; a forced status is the one given or the one
-- stored.
unfoldable pub settings_row :
    Option ℕ → Option InventoryStatus → Inventory → Inventory → Result (Option Change)
unfolding compute_status write_row
settings_row reorder_threshold status inventory _ =
    let threshold : ℕ = elim reorder_threshold [
      | none ↦ inventory.threshold
      | some given ↦ given
    ] in
    let forced : InventoryStatus = elim status [ none ↦ inventory.status | some given ↦ given ] in
    write_row (record {
      row = record inventory {
        threshold = threshold;
        status = compute_status inventory.available threshold (some forced);
      };
      stock = none;
      previous_quantity = inventory.available;
      new_quantity = inventory.available;
      quantity_change = pos 0;
      previous_reserved = inventory.reserved;
      new_reserved = inventory.reserved;
      moved = 0;
    })

-- The numbers of `FormattedInventory`. `Number(x || 10)` reads a threshold of zero as ten.
pub record FormattedInventory : Type 0 where
  pub product : ℕ
  pub available_quantity : ℕ
  pub reserved_quantity : ℕ
  pub total_stock : ℕ
  pub sold_quantity : ℕ
  pub reorder_threshold : ℕ
  pub status : InventoryStatus
  pub is_low_stock : Bool
  pub is_out_of_stock : Bool

unfoldable pub format_inventory : Product → Inventory → FormattedInventory
format_inventory p inv =
    let threshold : ℕ = if inv.threshold == 0 then 10 else inv.threshold in
    record {
      product = p.id;
      available_quantity = inv.available;
      reserved_quantity = inv.reserved;
      total_stock = inv.available + inv.reserved;
      sold_quantity = inv.sold;
      reorder_threshold = threshold;
      status = inv.status;
      is_low_stock = ltb 0 inv.available && leb inv.available threshold;
      is_out_of_stock = inv.available == 0;
    }

-- One administrator's change of one product: the write, the log entry, and the formatted row. The
-- audit entry names the inventory row, which the model knows by its product.
unfoldable pub admin_row :
    Operation
    → (Inventory → Inventory → Result (Option Change))
    → Product
    → Result (Product × (Option (InventoryLog × MovedItem) × FormattedInventory))
unfolding get_or_create save format_inventory
admin_row op step p =
    let (healed, inventory) = get_or_create p in
    step inventory inventory >>= λ change.
    let (written, entry) = save op none healed change in
    ok (written, (entry, format_inventory written (get_or_create written).1))

unfoldable pub admin_change :
    Operation
    → AuditAction
    → (Inventory → Inventory → Result (Option Change))
    → ℕ
    → Tx FormattedInventory
unfolding with_product admin_row record_log audited
admin_change op action step key db = with_product key (admin_row op step) db.products >>= λ r.
    let (entry, shown) = r.1 in
    let (_, logged) = record_log entry (record db { products = r.0 }) in
    ok (shown, record (audited action (some shown.product) logged) { catalog_cached = false })

-- `adjustStock`
unfoldable pub adjust_stock : ℕ → Operation → ℤ → Option ℕ → Tx FormattedInventory
unfolding admin_change adjust_row
adjust_stock key op quantity reorder_threshold db =
    if is_positive quantity
    then admin_change op
        (elim op [
          | Operation.restock ↦ AuditAction.stock_restocked
          | _ ↦ AuditAction.inventory_adjusted
        ])
        (adjust_row op (pos_part quantity) reorder_threshold) key db
    else err bad_request

-- `updateInventorySettings`
unfoldable pub update_inventory_settings :
    ℕ → Option ℕ → Option InventoryStatus → Tx FormattedInventory
unfolding admin_change settings_row
update_inventory_settings key reorder_threshold status =
    admin_change Operation.manual_adjustment AuditAction.inventory_adjusted
      (settings_row reorder_threshold status) key
