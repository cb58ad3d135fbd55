-- ===== src/Inventory/History.antt =====
-- Histories of calls of the inventory service.
use vedhicfoods.Prelude.{ℕ, Option, List, [], ◌∷◌}
use vedhicfoods.Prelude.Int.{ℤ}
use vedhicfoods.Inventory.State.{InventoryStatus, Operation, Db, ReservationItem}
use vedhicfoods.Inventory.Service.{
  reserve_stock, release_reservation, confirm_deduction, restock_order,
}
use vedhicfoods.Inventory.Admin.{adjust_stock, update_inventory_settings}
use vedhicfoods.Inventory.Upkeep.{
  after, IsConsistentTable, reserve_stock-KeepsTable, release_reservation-KeepsTable,
  confirm_deduction-KeepsTable, restock_order-KeepsTable, adjust_stock-consistent,
  update_inventory_settings-consistent,
}

-- The public methods that change stock, with their arguments.
pub data StockCall : Type 0 where
  reserves releases confirms restocks : List ReservationItem → Option ℕ → StockCall
  adjusts : ℕ → Operation → ℤ → Option ℕ → StockCall
  updates : ℕ → Option ℕ → Option InventoryStatus → StockCall

unfoldable pub step : Db → StockCall → Db
step db (StockCall.reserves items order) = after db (reserve_stock items order db)
step db (StockCall.releases items order) = after db (release_reservation items order db)
step db (StockCall.confirms items order) = after db (confirm_deduction items order db)
step db (StockCall.restocks items order) = after db (restock_order items order db)
step db (StockCall.adjusts key op qty threshold) = after db (adjust_stock key op qty threshold db)
step db (StockCall.updates key threshold status) =
    after db (update_inventory_settings key threshold status db)

unfoldable pub run : Db → List StockCall → Db
run db [] = db
run db (c ∷ cs) = run (step db c) cs

step-consistent :
    (db : Db) (c : StockCall)
    → IsConsistentTable db.products
    → IsConsistentTable (step db c).products
unfolding step
step-consistent db (StockCall.reserves items order) h = reserve_stock-KeepsTable items order db h
step-consistent db (StockCall.releases items order) h =
    release_reservation-KeepsTable items order db h
step-consistent db (StockCall.confirms items order) h =
    confirm_deduction-KeepsTable items order db h
step-consistent db (StockCall.restocks items order) h = restock_order-KeepsTable items order db h
step-consistent db (StockCall.adjusts key op qty threshold) h =
    adjust_stock-consistent key op qty threshold db h
step-consistent db (StockCall.updates key threshold status) h =
    update_inventory_settings-consistent key threshold status db h

-- Through any sequence of calls of the six methods, failed calls rolled back, every row of a
-- consistent table stays consistent: `Product.stock` equals the row's available quantity, the
-- quantities fit their columns, and the status is the one computed from the quantity and the
-- threshold, or a forced BACKORDER.
pub run-IsConsistentTable :
    (db : Db) (calls : List StockCall)
    → IsConsistentTable db.products
    → IsConsistentTable (run db calls).products
unfolding run
run-IsConsistentTable db [] h = h
run-IsConsistentTable db (c ∷ cs) h = run-IsConsistentTable (step db c) cs (step-consistent db c h)
