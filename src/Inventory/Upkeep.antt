-- ===== src/Inventory/Upkeep.antt =====
-- Every method of backend/src/services/inventory.service.ts that writes stock keeps the product
-- table consistent.
use vedhicfoods.Prelude.{
  ℕ, ◌≡◌, refl, inl, inr, false, Option, none, some, List, [], ◌∷◌, get_elem?, Bool-cases,
}
use vedhicfoods.Prelude.Int.{ℤ, pos_part}
use vedhicfoods.Result.{Result, ok, err, ◌>>=◌}
use vedhicfoods.Inventory.State.{
  Inventory, Product, InventoryLog, InventoryStatus, Operation, AuditAction, Db, ReservationItem,
  with_product,
}
use vedhicfoods.Inventory.Rows.{Change, release_row, confirm_row, restock_row}
use vedhicfoods.Inventory.Service.{
  MovedItem, for_items, credit_item, reserve_item, sort_items, audited, record_log, reserve_stock,
  release_reservation, confirm_deduction, restock_order, already_restocked, is_positive,
}
use vedhicfoods.Inventory.Admin.{
  FormattedInventory, admin_row, admin_change, adjust_row, settings_row, adjust_stock,
  update_inventory_settings,
}
use vedhicfoods.Inventory.Moves.{keys, demand, At, Moves, with_product-At}
use vedhicfoods.Inventory.Loops.{
  RowMoves, sorted-Moves, credit_item-MovesItem, reserve_item-MovesItem,
}
use vedhicfoods.Inventory.Consistency.{
  IsConsistent, Keeps, Keeps-IsAction, reserve_row-Keeps, release_row-Keeps, confirm_row-Keeps,
  restock_row-Keeps, adjust_row-kept, settings_row-kept, admin_row-same,
}

-- A call that throws is rolled back.
abbrev pub after {ℓ} : {A : Type ℓ} → Db → Result (A × Db) → Db
after db (ok (a, db')) = db'
after db (err e) = db

-- Every row of the table is consistent.
abbrev pub Holds : Option Product → Type 0
Holds none = Unit
Holds (some p) = IsConsistent p

abbrev pub IsConsistentTable : List Product → Type 0
IsConsistentTable ps = (i : ℕ) → Holds (get_elem? ps i)

At-Holds : (n : ℕ) (o o' : Option Product) → At Keeps n o o' → Holds o → Holds o'
At-Holds n none none k h = tt
At-Holds n (some p) (some q) k h = k.kept h
At-Holds n none (some q) k h = absurd k
At-Holds n (some p) none k h = absurd k

-- The outcome of a method that ends with the audit entry of a loop.
abbrev pub KeepsTable : Db → Result (List MovedItem × Db) → Type 0
KeepsTable db r = IsConsistentTable db.products → IsConsistentTable (after db r).products

audited_loop-KeepsTable :
    (body : ReservationItem → Db → Result (Option MovedItem × Db)) (items : List ReservationItem)
    (action : AuditAction) (order : Option ℕ) (db : Db)
    → ((db' : Db) (moved : List MovedItem)
        → for_items body (sort_items items) db ≡ ok (moved, db')
        → Moves Keeps (λ i. demand (keys db.products) i items) db.products db'.products)
    → KeepsTable db
        (for_items body (sort_items items) db >>= λ r. ok (r.0, audited action order r.1))
unfolding audited
audited_loop-KeepsTable body items action order db h c = go (for_items body (sort_items items) db) h
  where
    go :
        (r : Result (List MovedItem × Db))
        → ((db' : Db) (moved : List MovedItem)
            → r ≡ ok (moved, db')
            → Moves Keeps (λ i. demand (keys db.products) i items) db.products db'.products)
        → IsConsistentTable (after db (r >>= λ r. ok (r.0, audited action order r.1))).products
    go (ok (moved, db')) k = λ i. At-Holds _ _ _ ((k db' moved refl).1 i) (c i)
    go (err e) k = c

admin_change-consistent :
    (op : Operation) (action : AuditAction) (row : Inventory → Inventory → Result (Option Change))
    (key : ℕ) (db : Db)
    → ((p q : Product) (a : Option (InventoryLog × MovedItem) × FormattedInventory)
        → admin_row op row p ≡ ok (q, a)
        → IsConsistent p
        → IsConsistent q)
    → IsConsistentTable db.products
    → IsConsistentTable (after db (admin_change op action row key db)).products
unfolding admin_change audited record_log
admin_change-consistent op action row key db kept c =
    go (with_product key (admin_row op row) db.products) refl
  where
    Found : Type 0
    Found = List Product × (Option (InventoryLog × MovedItem) × FormattedInventory)

    row_keeps :
        (p q : Product) (a : Option (InventoryLog × MovedItem) × FormattedInventory)
        → admin_row op row p ≡ ok (q, a)
        → Keeps 0 p q
    row_keeps p q a e = record {
      same_id = (admin_row-same op row p q a e).0;
      same_slug = (admin_row-same op row p q a e).1;
      kept = kept p q a e;
    }

    go :
        (r : Result Found)
        → with_product key (admin_row op row) db.products ≡ r
        → IsConsistentTable
            (after db (
              r >>= λ r.
              let (entry, shown) = r.1 in
              let (_, logged) = record_log entry (record db { products = r.0 }) in
              ok (
                shown,
                record (audited action (some shown.product) logged) { catalog_cached = false },
              ))).products
    go (ok (ps, (none, shown))) e = λ i.
        At-Holds _ _ _
          (with_product-At Keeps Keeps-IsAction key 0 (admin_row op row) row_keeps db.products ps
            (none, shown) e i)
          (c i)
    go (ok (ps, (some (l, m), shown))) e = λ i.
        At-Holds _ _ _
          (with_product-At Keeps Keeps-IsAction key 0 (admin_row op row) row_keeps db.products ps
            (some (l, m), shown) e i)
          (c i)
    go (err x) e = c

-- The four methods that loop over lines.
pub reserve_stock-KeepsTable :
    (items : List ReservationItem) (order : Option ℕ) (db : Db)
    → KeepsTable db (reserve_stock items order db)
unfolding reserve_stock
reserve_stock-KeepsTable [] order db c = c
reserve_stock-KeepsTable (item ∷ items) order db c =
    audited_loop-KeepsTable (reserve_item order) (item ∷ items) AuditAction.stock_reserved order db
      (sorted-Moves Keeps Keeps-IsAction (reserve_item order)
        (reserve_item-MovesItem Keeps Keeps-IsAction reserve_row-Keeps order) (item ∷ items) db)
      c

credited :
    (op : Operation) (row : ℕ → Inventory → Inventory → Result (Option Change))
    → RowMoves Keeps op row
    → (order : Option ℕ) (items : List ReservationItem) (db db' : Db) (moved : List MovedItem)
    → for_items (credit_item op row order) (sort_items items) db ≡ ok (moved, db')
    → Moves Keeps (λ i. demand (keys db.products) i items) db.products db'.products
credited op row obeys order =
    sorted-Moves Keeps Keeps-IsAction (credit_item op row order)
      (credit_item-MovesItem Keeps Keeps-IsAction op row obeys order)

pub release_reservation-KeepsTable :
    (items : List ReservationItem) (order : Option ℕ) (db : Db)
    → KeepsTable db (release_reservation items order db)
unfolding release_reservation
release_reservation-KeepsTable [] order db c = c
release_reservation-KeepsTable (item ∷ items) order db c =
    audited_loop-KeepsTable (credit_item Operation.release_reservation release_row order)
      (item ∷ items) AuditAction.stock_released order db
      (credited Operation.release_reservation release_row release_row-Keeps order (item ∷ items) db)
      c

pub confirm_deduction-KeepsTable :
    (items : List ReservationItem) (order : Option ℕ) (db : Db)
    → KeepsTable db (confirm_deduction items order db)
unfolding confirm_deduction
confirm_deduction-KeepsTable [] order db c = c
confirm_deduction-KeepsTable (item ∷ items) order db c =
    audited_loop-KeepsTable (credit_item Operation.confirm_deduction confirm_row order)
      (item ∷ items) AuditAction.stock_deducted order db
      (credited Operation.confirm_deduction confirm_row confirm_row-Keeps order (item ∷ items) db) c

pub restock_order-KeepsTable :
    (items : List ReservationItem) (order : Option ℕ) (db : Db)
    → KeepsTable db (restock_order items order db)
unfolding restock_order
restock_order-KeepsTable [] order db c = c
restock_order-KeepsTable (item ∷ items) order db c =
    elim (Bool-cases (already_restocked order db)) [
      | inl again ↦ rw again (unfold audited in c)
      | inr first ↦ rw first (
          audited_loop-KeepsTable (credit_item Operation.restock restock_row order) (item ∷ items)
            AuditAction.stock_restocked order db
            (credited Operation.restock restock_row restock_row-Keeps order (item ∷ items) db) c)
    ]

-- The two administrator's methods.
pub adjust_stock-consistent :
    (key : ℕ) (op : Operation) (qty : ℤ) (threshold : Option ℕ) (db : Db)
    → IsConsistentTable db.products
    → IsConsistentTable (after db (adjust_stock key op qty threshold db)).products
unfolding adjust_stock
adjust_stock-consistent key op qty threshold db c = elim (Bool-cases (is_positive qty)) [
  | inl positive ↦ rw positive (
      admin_change-consistent op _ (adjust_row op (pos_part qty) threshold) key db
        (adjust_row-kept op (pos_part qty) threshold) c)
  | inr refused ↦ rw refused c
]

pub update_inventory_settings-consistent :
    (key : ℕ) (threshold : Option ℕ) (status : Option InventoryStatus) (db : Db)
    → IsConsistentTable db.products
    → IsConsistentTable (after db (update_inventory_settings key threshold status db)).products
unfolding update_inventory_settings
update_inventory_settings-consistent key threshold status db c =
    admin_change-consistent _ _ (settings_row threshold status) key db
      (settings_row-kept _ threshold status) c
