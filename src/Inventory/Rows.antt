-- ===== src/Inventory/Rows.antt =====
-- What each stock operation does to one locked inventory row. `snapshot` is the row as
-- `getOrCreateInventory` read it, before the lock; `locked` is the row that `SELECT … FOR UPDATE`
-- returned. Quantities come from `locked`, the reorder threshold from `snapshot`.
use vedhicfoods.Prelude.{ℕ, ◌+◌, ◌-◌, min, ◌&&◌, Option, none, some, leb, ◌==◌, if◌then◌else◌}
use vedhicfoods.Prelude.Int.{ℤ, pos, sub_ℕ}
use vedhicfoods.Result.{Result, ok, err, bad_request, database, require, ◌>>◌}
use vedhicfoods.Inventory.State.{
  Inventory, InventoryStatus, in_stock, low_stock, out_of_stock, backorder, max_inventory_quantity,
}

unfoldable pub compute_status : ℕ → ℕ → Option InventoryStatus → InventoryStatus
compute_status available threshold (some backorder) = backorder
compute_status available threshold forced =
    if available == 0 then out_of_stock else if leb available threshold then low_stock else in_stock

-- What an operation writes for one row: the row itself, `Product.stock` if it is written, and the
-- numbers of the log entry. `moved` is the quantity that the caller reports.
pub record Change : Type 0 where
  pub row : Inventory
  pub stock : Option ℕ
  pub previous_quantity : ℕ
  pub new_quantity : ℕ
  pub quantity_change : ℤ
  pub previous_reserved : ℕ
  pub new_reserved : ℕ
  pub moved : ℕ

-- PostgreSQL refuses a 4-byte integer column out of its range, and the transaction is rolled back.
unfoldable pub write_row : Change → Result (Option Change)
write_row c =
    if leb c.row.available max_inventory_quantity
      && leb c.row.reserved max_inventory_quantity
      && leb c.row.sold max_inventory_quantity
    then ok (some c)
    else err database

-- The body of the loop in `reserveStock`, for a quantity above zero. The second test is the
-- condition of the `updateMany`.
unfoldable pub reserve_row : ℕ → Inventory → Inventory → Result (Option Change)
unfolding compute_status write_row
reserve_row qty snapshot locked = do
  require (leb qty locked.available) bad_request
  let new_available = locked.available - qty
  let new_reserved = locked.reserved + qty
  require (leb qty locked.available) bad_request
  write_row (record {
    row = record locked {
      available = new_available;
      reserved = new_reserved;
      status = compute_status new_available snapshot.threshold none;
    };
    stock = some new_available;
    previous_quantity = locked.available;
    new_quantity = new_available;
    quantity_change = sub_ℕ 0 qty;
    previous_reserved = locked.reserved;
    new_reserved = new_reserved;
    moved = qty;
  })

-- The body of the loop in `releaseReservation`: at most what is reserved goes back.
unfoldable pub release_row : ℕ → Inventory → Inventory → Result (Option Change)
unfolding compute_status write_row
release_row qty snapshot locked =
    let release_qty = min locked.reserved qty in
    let new_available = locked.available + release_qty in
    let new_reserved = locked.reserved - release_qty in
    if release_qty == 0
    then ok none
    else write_row (record {
      row = record locked {
        available = new_available;
        reserved = new_reserved;
        status = compute_status new_available snapshot.threshold none;
      };
      stock = some new_available;
      previous_quantity = locked.available;
      new_quantity = new_available;
      quantity_change = pos release_qty;
      previous_reserved = locked.reserved;
      new_reserved = new_reserved;
      moved = release_qty;
    })

-- The body of the loop in `confirmDeduction`. Its log entry takes the available quantity from the
-- row as it was before the lock.
unfoldable pub confirm_row : ℕ → Inventory → Inventory → Result (Option Change)
unfolding write_row
confirm_row qty snapshot locked =
    let deduct_qty = min locked.reserved qty in
    let new_reserved = locked.reserved - deduct_qty in
    write_row (record {
      row = record locked { reserved = new_reserved; sold = locked.sold + deduct_qty };
      stock = none;
      previous_quantity = snapshot.available;
      new_quantity = snapshot.available;
      quantity_change = pos 0;
      previous_reserved = locked.reserved;
      new_reserved = new_reserved;
      moved = deduct_qty;
    })

-- The body of the loop in `restockOrder`; `Math.max(0, prevSold - qty)` is the subtraction on ℕ.
unfoldable pub restock_row : ℕ → Inventory → Inventory → Result (Option Change)
unfolding compute_status write_row
restock_row qty snapshot locked =
    let new_available = locked.available + qty in
    write_row (record {
      row = record locked {
        available = new_available;
        sold = locked.sold - qty;
        status = compute_status new_available snapshot.threshold none;
      };
      stock = some new_available;
      previous_quantity = locked.available;
      new_quantity = new_available;
      quantity_change = pos qty;
      previous_reserved = snapshot.reserved;
      new_reserved = snapshot.reserved;
      moved = qty;
    })
