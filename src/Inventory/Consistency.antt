-- ===== src/Inventory/Consistency.antt =====
-- The invariant of the product table: what the storefront shows agrees with the inventory row.
use vedhicfoods.Prelude.{ℕ, ◌≤◌, ◌≡◌, ◌⊎◌, Option, none, some, arith}
use vedhicfoods.Result.{Result, ok}
use vedhicfoods.Inventory.State.{
  Inventory, Product, InventoryLog, InventoryStatus, backorder, Operation, max_inventory_quantity,
}
use vedhicfoods.Inventory.Rows.{
  Change, compute_status, reserve_row, release_row, confirm_row, restock_row,
}
use vedhicfoods.Inventory.Service.{MovedItem, move_row}
use vedhicfoods.Inventory.Admin.{FormattedInventory, adjust_row, settings_row, admin_row}
use vedhicfoods.Inventory.Moves.{IsAction}
use vedhicfoods.Inventory.Loops.{RowMoves}

-- An inventory row in range, whose status follows from its quantity unless it is forced.
pub record IsSound (i : Inventory) : Type 0 where
  pub available_in_range : i.available ≤ max_inventory_quantity
  pub reserved_in_range : i.reserved ≤ max_inventory_quantity
  pub sold_in_range : i.sold ≤ max_inventory_quantity
  pub status_fits :
      (i.status ≡ backorder) ⊎ (i.status ≡ compute_status i.available i.threshold none)

-- `Product.stock` is in range, and equals the available quantity of the row, which is sound.
abbrev pub IsConsistent : Product → Type 0
IsConsistent p =
    (p.stock ≤ max_inventory_quantity)
    × elim p.inventory [ none ↦ Unit {0} | some i ↦ (p.stock ≡ i.available) × IsSound i ]

pub record Keeps (n : ℕ) (p q : Product) : Type 0 where
  pub same_id : p.id ≡ q.id
  pub same_slug : p.slug ≡ q.slug
  pub kept : IsConsistent p → IsConsistent q

pub Keeps-IsAction : IsAction Keeps
Keeps-IsAction = record {
  idle = λ p. record { same_id = omega arith; same_slug = omega arith; kept = λ c. c };
  twice = λ m n p q r h k. record {
    same_id = omega arith;
    same_slug = omega arith;
    kept = λ c. k.kept (h.kept c);
  };
  same_id = λ n p q h. h.same_id;
  same_slug = λ n p q h. h.same_slug;
}

pub reserve_row-kept :
    (order : Option ℕ) (n : ℕ) (p q : Product) (a : Option (InventoryLog × MovedItem))
    → move_row Operation.reserve_stock order (reserve_row n) p ≡ ok (q, a)
    → IsConsistent p
    → IsConsistent q
unfolding move_row reserve_row
reserve_row-kept order n p q a e c = ground arith

pub reserve_row-Keeps : RowMoves Keeps Operation.reserve_stock reserve_row
reserve_row-Keeps order n p q a e = record {
  same_id = unfold move_row reserve_row in ground arith;
  same_slug = unfold move_row reserve_row in ground arith;
  kept = reserve_row-kept order n p q a e;
}

pub release_row-kept :
    (order : Option ℕ) (n : ℕ) (p q : Product) (a : Option (InventoryLog × MovedItem))
    → move_row Operation.release_reservation order (release_row n) p ≡ ok (q, a)
    → IsConsistent p
    → IsConsistent q
unfolding move_row release_row
release_row-kept order n p q a e c = ground arith

pub release_row-Keeps : RowMoves Keeps Operation.release_reservation release_row
release_row-Keeps order n p q a e = record {
  same_id = unfold move_row release_row in ground arith;
  same_slug = unfold move_row release_row in ground arith;
  kept = release_row-kept order n p q a e;
}

pub confirm_row-kept :
    (order : Option ℕ) (n : ℕ) (p q : Product) (a : Option (InventoryLog × MovedItem))
    → move_row Operation.confirm_deduction order (confirm_row n) p ≡ ok (q, a)
    → IsConsistent p
    → IsConsistent q
unfolding move_row confirm_row
confirm_row-kept order n p q a e c = ground arith

pub confirm_row-Keeps : RowMoves Keeps Operation.confirm_deduction confirm_row
confirm_row-Keeps order n p q a e = record {
  same_id = unfold move_row confirm_row in ground arith;
  same_slug = unfold move_row confirm_row in ground arith;
  kept = confirm_row-kept order n p q a e;
}

pub restock_row-kept :
    (order : Option ℕ) (n : ℕ) (p q : Product) (a : Option (InventoryLog × MovedItem))
    → move_row Operation.restock order (restock_row n) p ≡ ok (q, a)
    → IsConsistent p
    → IsConsistent q
unfolding move_row restock_row
restock_row-kept order n p q a e c = ground arith

pub restock_row-Keeps : RowMoves Keeps Operation.restock restock_row
restock_row-Keeps order n p q a e = record {
  same_id = unfold move_row restock_row in ground arith;
  same_slug = unfold move_row restock_row in ground arith;
  kept = restock_row-kept order n p q a e;
}

pub adjust_row-kept :
    (op : Operation) (n : ℕ) (threshold : Option ℕ) (p q : Product)
    (a : Option (InventoryLog × MovedItem) × FormattedInventory)
    → admin_row op (adjust_row op n threshold) p ≡ ok (q, a)
    → IsConsistent p
    → IsConsistent q
unfolding admin_row adjust_row
adjust_row-kept Operation.add_stock n threshold p q a e c = ground arith
adjust_row-kept _ n threshold p q a e c = ground arith

pub settings_row-kept :
    (op : Operation) (threshold : Option ℕ) (status : Option InventoryStatus) (p q : Product)
    (a : Option (InventoryLog × MovedItem) × FormattedInventory)
    → admin_row op (settings_row threshold status) p ≡ ok (q, a)
    → IsConsistent p
    → IsConsistent q
unfolding admin_row settings_row
settings_row-kept op threshold status p q a e c = ground arith

pub admin_row-same :
    (op : Operation) (step : Inventory → Inventory → Result (Option Change)) (p q : Product)
    (a : Option (InventoryLog × MovedItem) × FormattedInventory)
    → admin_row op step p ≡ ok (q, a)
    → (p.id ≡ q.id) × (p.slug ≡ q.slug)
unfolding admin_row
admin_row-same op step p q a e = ground arith
