-- ===== src/Inventory/Tests.antt =====
-- A shelf of three products, runs of the inventory service on it, and the theorems at those runs.
use vedhicfoods.Prelude.{
  ◌+◌, ◌-◌, ◌≤◌, ◌≡◌, refl, true, zero, suc, inr, none, some, List, [], ◌∷◌, arith, get_elem?,
}
use vedhicfoods.Prelude.Int.{pos, negsuc}
use vedhicfoods.Result.{Result, ok, err, Succeeds, bad_request}
use vedhicfoods.Inventory.State.{
  Product, Inventory, InventoryStatus, Operation, Db, ReservationItem,
}
use vedhicfoods.Inventory.Rows.{compute_status, reserve_row}
use vedhicfoods.Inventory.Service.{
  MovedItem, reserve_stock, release_reservation, confirm_deduction, restock_order,
}
use vedhicfoods.Inventory.Moves.{keys, demand, resolves, At, Moves}
use vedhicfoods.Inventory.Conservation.{Reserves, reserve_stock-Reserves}
use vedhicfoods.Inventory.RoundTrip.{
  SameLevels, Sells, SellsTwice, release-reserve, confirm-reserve, confirm-confirm,
}
use vedhicfoods.Inventory.Restock.{restock_order-restock_order}
use vedhicfoods.Inventory.Availability.{IsCovered, reserve_stock-Succeeds}
use vedhicfoods.Inventory.Interleaving.{
  reserves, Interleaves, start, next, total_units, Interleaves-total_units,
}
use vedhicfoods.Inventory.Upkeep.{after, IsConsistentTable}
use vedhicfoods.Inventory.Ledger.{Move, apply_moves}
use vedhicfoods.Inventory.Refinement.{
  LineCall, perform_all, entries, levels_of, perform_all-apply_moves,
}
use vedhicfoods.Inventory.History.{StockCall, run, run-IsConsistentTable}

abbrev honey_row : Inventory
honey_row = record {
  available = 20;
  reserved = 4;
  sold = 7;
  threshold = 10;
  status = InventoryStatus.in_stock;
}

-- Honey and ghee, and a product without an inventory row.
abbrev shelf : Db
shelf = record {
  products =
      record { id = 1; slug = 101; stock = 20; inventory = some honey_row }
      ∷ record {
        id = 2;
        slug = 102;
        stock = 3;
        inventory = some (record {
          available = 3;
          reserved = 0;
          sold = 0;
          threshold = 5;
          status = InventoryStatus.low_stock;
        });
      }
      ∷ record { id = 3; slug = 103; stock = 50; inventory = none }
      ∷ [];
  logs = [];
  audits = [];
  catalog_cached = true;
}

-- Three units of ghee by its slug, twelve of honey in two lines, and one of the third product.
abbrev lines : List ReservationItem
lines =
    record { product = 102; quantity = pos 3 }
    ∷ record { product = 1; quantity = pos 7 }
    ∷ record { product = 3; quantity = pos 1 }
    ∷ record { product = 101; quantity = pos 5 }
    ∷ []

abbrev reported : Result (List MovedItem × Db) → List MovedItem
reported (ok (moved, db)) = moved
reported (err e) = []

abbrev held : Db
held = after shelf (reserve_stock lines (some 9) shelf)

abbrev released : Db
released = after held (release_reservation lines (some 9) held)

abbrev confirmed : Db
confirmed = after held (confirm_deduction lines (some 9) held)

abbrev restocked : Db
restocked = after confirmed (restock_order lines (some 9) confirmed)

-- The lines are taken in the order of their product keys.
reserve_lines :
    reported (reserve_stock lines (some 9) shelf)
    ≡ record { product = 1; quantity = 7 }
      ∷ record { product = 3; quantity = 1 }
      ∷ record { product = 1; quantity = 5 }
      ∷ record { product = 2; quantity = 3 }
      ∷ []
unfolding reserve_stock
reserve_lines = refl

reserve_too_many :
    reserve_stock (record { product = 2; quantity = pos 4 } ∷ []) none shelf ≡ err bad_request
unfolding reserve_stock
reserve_too_many = refl

reserve_nothing :
    reserve_stock (record { product = 2; quantity = negsuc 0 } ∷ []) none shelf ≡ err bad_request
unfolding reserve_stock
reserve_nothing = refl

reserve_stock-Reserves_example :
    Moves Reserves (λ i. demand (keys shelf.products) i lines) shelf.products held.products
unfolding reserve_stock
reserve_stock-Reserves_example =
    reserve_stock-Reserves lines (some 9) shelf held (reported (reserve_stock lines (some 9) shelf))
      refl

release-reserve_example :
    At SameLevels
      (demand (keys shelf.products) 0 lines)
      (get_elem? shelf.products 0)
      (get_elem? released.products 0)
unfolding reserve_stock release_reservation
release-reserve_example =
    release-reserve lines (some 9) (some 9) shelf held released
      (reported (reserve_stock lines (some 9) shelf))
      (reported (release_reservation lines (some 9) held)) refl refl 0

confirm-reserve_example :
    At Sells
      (demand (keys shelf.products) 0 lines)
      (get_elem? shelf.products 0)
      (get_elem? confirmed.products 0)
unfolding reserve_stock confirm_deduction
confirm-reserve_example =
    confirm-reserve lines (some 9) (some 9) shelf held confirmed
      (reported (reserve_stock lines (some 9) shelf))
      (reported (confirm_deduction lines (some 9) held)) refl refl 0

abbrev two_jars : List ReservationItem
two_jars = record { product = 1; quantity = pos 2 } ∷ []

abbrev once : Db
once = after shelf (confirm_deduction two_jars (some 5) shelf)

abbrev twice : Db
twice = after once (confirm_deduction two_jars (some 5) once)

-- The four jars that other orders hold are sold to one order of two.
confirm-confirm_example :
    At SellsTwice
      (demand (keys shelf.products) 0 two_jars)
      (get_elem? shelf.products 0)
      (get_elem? twice.products 0)
unfolding confirm_deduction
confirm-confirm_example =
    confirm-confirm two_jars (some 5) (some 5) shelf once twice
      (reported (confirm_deduction two_jars (some 5) shelf))
      (reported (confirm_deduction two_jars (some 5) once)) refl refl 0

restock_order-restock_order_example :
    (again : Db) × (restock_order two_jars (some 9) restocked ≡ ok ([], again))
    × (again.products ≡ restocked.products)
    × (again.logs ≡ restocked.logs)
unfolding reserve_stock confirm_deduction restock_order
restock_order-restock_order_example =
    restock_order-restock_order 9 lines confirmed restocked
      (reported (restock_order lines (some 9) confirmed)) refl refl two_jars

two_jars-IsCovered : IsCovered shelf.products two_jars
unfolding demand resolves
two_jars-IsCovered zero = omega arith
two_jars-IsCovered (suc zero) = omega arith
two_jars-IsCovered (suc (suc zero)) = omega arith
two_jars-IsCovered (suc (suc (suc i))) = tt

reserve_stock-Succeeds_example : Succeeds (reserve_stock two_jars (some 5) shelf)
unfolding resolves demand
reserve_stock-Succeeds_example =
    reserve_stock-Succeeds (record { product = 1; quantity = pos 2 }) [] (some 5) shelf
      (refl, (0, refl), tt) two_jars-IsCovered

shelf_consistent : IsConsistentTable shelf.products
unfolding compute_status
shelf_consistent zero = (
  omega arith,
  (
    refl,
    record {
      available_in_range = omega arith;
      reserved_in_range = omega arith;
      sold_in_range = omega arith;
      status_fits = inr refl;
    },
  ),
)
shelf_consistent (suc zero) = (
  omega arith,
  (
    refl,
    record {
      available_in_range = omega arith;
      reserved_in_range = omega arith;
      sold_in_range = omega arith;
      status_fits = inr refl;
    },
  ),
)
shelf_consistent (suc (suc zero)) = (omega arith, tt)
shelf_consistent (suc (suc (suc i))) = tt

abbrev calls : List StockCall
calls =
    StockCall.reserves lines (some 9)
    ∷ StockCall.confirms lines (some 9)
    ∷ StockCall.adjusts 102 Operation.add_stock (pos 40) none
    ∷ []

run-IsConsistentTable_example : IsConsistentTable (run shelf calls).products
run-IsConsistentTable_example = run-IsConsistentTable shelf calls shelf_consistent

honey_reserved : Interleaves honey_row (record honey_row { available = 15; reserved = 9 })
unfolding reserve_row
honey_reserved = next start (reserves 5 (record honey_row { available = 90 }) honey_row _ refl)

Interleaves-total_units_example :
    (total_units (record honey_row { available = 15; reserved = 9 }) ≡ total_units honey_row)
    × (7 ≤ 7)
    × (7 - 7 ≤ 20 + 4)
Interleaves-total_units_example = Interleaves-total_units honey_reserved

abbrev honey : Product
honey = record { id = 1; slug = 101; stock = 20; inventory = some honey_row }

-- Two reservations and a release; the second reservation of ghee fails.
abbrev line_calls : List LineCall
line_calls =
    record { move = Move.reserve; items = lines; order = none }
    ∷ record { move = Move.reserve; items = lines; order = none }
    ∷ record { move = Move.release; items = lines; order = some 9 }
    ∷ []

perform_all-apply_moves_example :
    (q : Product) × (get_elem? (perform_all line_calls shelf).products 0 ≡ some q)
    × (apply_moves (entries (keys shelf.products) 0 line_calls shelf) (levels_of honey)
        ≡ some (levels_of q))
perform_all-apply_moves_example = perform_all-apply_moves line_calls shelf 0 honey refl
