-- ===== src/Inventory/Service.antt =====
-- backend/src/services/inventory.service.ts, method by method, on the tables of State. A method
-- runs in one transaction: an error leaves the tables as they were.
use vedhicfoods.Prelude.{
  ℕ, Bool, true, false, ◌&&◌, Option, none, some, List, [], ◌∷◌, leb, ltb, ◌==◌, if◌then◌else◌,
  any_by,
}
use vedhicfoods.Prelude.Int.{ℤ, pos_part}
use vedhicfoods.Result.{Result, ok, err, bad_request, ◌>>=◌}
use vedhicfoods.Inventory.State.{
  Inventory, Product, InventoryLog, AuditAction, Db, ReservationItem, Operation, with_product,
}
use vedhicfoods.Inventory.Rows.{
  Change, compute_status, reserve_row, release_row, confirm_row, restock_row,
}

-- `getOrCreateInventory`, for the product that was found: a missing inventory row is created from
-- `Product.stock`.
unfoldable pub get_or_create : Product → Product × Inventory
unfolding compute_status
get_or_create p = elim p.inventory [
  | some inventory ↦ (p, inventory)
  | none ↦
      let created : Inventory = record {
        available = p.stock;
        reserved = 0;
        sold = 0;
        threshold = 10;
        status = compute_status p.stock 10 none;
      } in
      (record p { inventory = some created }, created)
]

-- An entry of `reservedItems`, `releasedItems`, `deductedItems` or `restockedItems`.
pub record MovedItem : Type 0 where
  pub product : ℕ
  pub quantity : ℕ

-- The writes for one product: the row, `Product.stock`, and the log entry.
unfoldable pub save :
    Operation → Option ℕ → Product → Option Change → Product × Option (InventoryLog × MovedItem)
save op order p none = (p, none)
save op order p (some c) = (
  record p {
    inventory = some c.row;
    stock = elim c.stock [ none ↦ p.stock | some written ↦ written ];
  },
  some (
    record {
      product = p.id;
      operation = op;
      previous_quantity = c.previous_quantity;
      new_quantity = c.new_quantity;
      quantity_change = c.quantity_change;
      previous_reserved = c.previous_reserved;
      new_reserved = c.new_reserved;
      order = order;
    },
    record { product = p.id; quantity = c.moved },
  ),
)

-- Within one transaction nothing comes between the read and the lock, so both rows are the same.
unfoldable pub move_row :
    Operation
    → Option ℕ
    → (Inventory → Inventory → Result (Option Change))
    → Product
    → Result (Product × Option (InventoryLog × MovedItem))
unfolding get_or_create save
move_row op order step p =
    let (healed, inventory) = get_or_create p in
    step inventory inventory >>= λ change. ok (save op order healed change)

abbrev pub Tx : Type 0 → Type 0
Tx A = Db → Result (A × Db)

-- `inventoryLog.create`
unfoldable pub record_log : Option (InventoryLog × MovedItem) → Db → Option MovedItem × Db
record_log none db = (none, db)
record_log (some (log, moved)) db = (some moved, record db { logs = log ∷ db.logs })

unfoldable pub move_item :
    Operation
    → Option ℕ
    → (Inventory → Inventory → Result (Option Change))
    → ℕ
    → Tx (Option MovedItem)
unfolding with_product move_row record_log
move_item op order step key db = with_product key (move_row op order step) db.products >>= λ r.
    ok (record_log r.1 (record db { products = r.0 }))

-- `for (const item of sortedItems) { … push … }`
unfoldable pub for_items :
    (ReservationItem → Tx (Option MovedItem)) → List ReservationItem → Tx (List MovedItem)
for_items body [] db = ok ([], db)
for_items body (item ∷ items) db = do
  r ← body item db
  rest ← for_items body items r.1
  ok (elim r.0 [ none ↦ rest.0 | some moved ↦ moved ∷ rest.0 ], rest.1)

-- `[...items].sort((a, b) => a.productId.localeCompare(b.productId))`, which is stable.
unfoldable pub insert_item : ReservationItem → List ReservationItem → List ReservationItem
insert_item x [] = x ∷ []
insert_item x (y ∷ ys) = if leb x.product y.product then x ∷ y ∷ ys else y ∷ insert_item x ys

unfoldable pub sort_items : List ReservationItem → List ReservationItem
unfolding insert_item
sort_items [] = []
sort_items (x ∷ xs) = insert_item x (sort_items xs)

abbrev pub is_positive : ℤ → Bool
is_positive q = ltb 0 (pos_part q)

unfoldable pub audited : AuditAction → Option ℕ → Db → Db
audited action entity db = record db {
  audits = record { action = action; entity = entity } ∷ db.audits;
}

unfoldable pub reserve_item : Option ℕ → ReservationItem → Tx (Option MovedItem)
unfolding move_item reserve_row
reserve_item order item db =
    if is_positive item.quantity
    then move_item Operation.reserve_stock order (reserve_row (pos_part item.quantity)) item.product
        db
    else err bad_request

unfoldable pub reserve_stock : List ReservationItem → Option ℕ → Tx (List MovedItem)
unfolding for_items reserve_item sort_items audited
reserve_stock [] order db = err bad_request
reserve_stock (item ∷ items) order db = do
  r ← for_items (reserve_item order) (sort_items (item ∷ items)) db
  ok (r.0, audited AuditAction.stock_reserved order r.1)

-- The loop body that `releaseReservation`, `confirmDeduction` and `restockOrder` share: a quantity
-- of zero or less is skipped.
unfoldable pub credit_item :
    Operation
    → (ℕ → Inventory → Inventory → Result (Option Change))
    → Option ℕ
    → ReservationItem
    → Tx (Option MovedItem)
unfolding move_item
credit_item op row order item db =
    if is_positive item.quantity
    then move_item op order (row (pos_part item.quantity)) item.product db
    else ok (none, db)

unfoldable pub release_reservation : List ReservationItem → Option ℕ → Tx (List MovedItem)
unfolding for_items credit_item release_row sort_items audited
release_reservation [] order db = ok ([], db)
release_reservation (item ∷ items) order db = do
  r ←
      for_items (credit_item Operation.release_reservation release_row order)
        (sort_items (item ∷ items)) db
  ok (r.0, audited AuditAction.stock_released order r.1)

unfoldable pub confirm_deduction : List ReservationItem → Option ℕ → Tx (List MovedItem)
unfolding for_items credit_item confirm_row sort_items audited
confirm_deduction [] order db = ok ([], db)
confirm_deduction (item ∷ items) order db = do
  r ←
      for_items (credit_item Operation.confirm_deduction confirm_row order)
        (sort_items (item ∷ items)) db
  ok (r.0, audited AuditAction.stock_deducted order r.1)

-- `where: { orderId, operation: 'RESTOCK' }`
unfoldable pub is_restock_of : ℕ → InventoryLog → Bool
is_restock_of order log =
    elim log.operation [ Operation.restock ↦ true | _ ↦ false ]
    && elim log.order [ none ↦ false | some logged ↦ logged == order ]

-- `inventoryLog.findFirst`, asked only when the context names an order.
unfoldable pub already_restocked : Option ℕ → Db → Bool
unfolding is_restock_of
already_restocked none db = false
already_restocked (some order) db = any_by (is_restock_of order) db.logs

unfoldable pub restock_order : List ReservationItem → Option ℕ → Tx (List MovedItem)
unfolding for_items credit_item restock_row sort_items audited already_restocked
restock_order [] order db = ok ([], db)
restock_order (item ∷ items) order db = do
  r ←
      if already_restocked order db
      then ok ([], db)
      else for_items (credit_item Operation.restock restock_row order) (sort_items (item ∷ items))
          db
  ok (r.0, audited AuditAction.stock_restocked order r.1)
