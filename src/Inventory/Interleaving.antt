-- ===== src/Inventory/Interleaving.antt =====
-- Concurrent transactions on one inventory row. `SELECT … FOR UPDATE` makes the read and the write
-- of a row one step, but the row that `getOrCreateInventory` read before may be any older version:
-- a step takes it as an arbitrary `snapshot`.
use vedhicfoods.Prelude.{ℕ, ◌+◌, ◌-◌, ◌≤◌, ◌≡◌, some, arith}
use vedhicfoods.Result.{ok}
use vedhicfoods.Inventory.State.{Inventory}
use vedhicfoods.Inventory.Rows.{Change, reserve_row, release_row, confirm_row}

-- One locked step of some transaction, under any stale snapshot.
pub data RowStep : Inventory → Inventory → Type 0 where
  reserves :
      (n : ℕ) (snapshot locked : Inventory) (c : Change)
      → reserve_row n snapshot locked ≡ ok (some c)
      → RowStep locked c.row
  releases :
      (n : ℕ) (snapshot locked : Inventory) (c : Change)
      → release_row n snapshot locked ≡ ok (some c)
      → RowStep locked c.row
  confirms :
      (n : ℕ) (snapshot locked : Inventory) (c : Change)
      → confirm_row n snapshot locked ≡ ok (some c)
      → RowStep locked c.row

pub data Interleaves (i : Inventory) : Inventory → Type 0 where
  start : Interleaves i i
  next : {j k : Inventory} → Interleaves i j → RowStep j k → Interleaves i k

abbrev pub total_units : Inventory → ℕ
total_units i = i.available + i.reserved + i.sold

RowStep-total_units : {i j : Inventory} → RowStep i j → total_units j ≡ total_units i
RowStep-total_units (reserves n snapshot locked c e) = unfold reserve_row in ground arith
RowStep-total_units (releases n snapshot locked c e) = unfold release_row in ground arith
RowStep-total_units (confirms n snapshot locked c e) = unfold confirm_row in ground arith

RowStep-sold : {i j : Inventory} → RowStep i j → i.sold ≤ j.sold
RowStep-sold (reserves n snapshot locked c e) = unfold reserve_row in ground arith
RowStep-sold (releases n snapshot locked c e) = unfold release_row in ground arith
RowStep-sold (confirms n snapshot locked c e) = unfold confirm_row in ground arith

-- Whatever reservations, releases and confirmations of any orders run on a row, in whatever order
-- and with however stale a first read, its units on hand, in reserve and sold add up to the same
-- number, sales never fall, and no more is ever sold than the row held at the start.
pub Interleaves-total_units :
    {i j : Inventory}
    → Interleaves i j
    → (total_units j ≡ total_units i)
      × (i.sold ≤ j.sold)
      × (j.sold - i.sold ≤ i.available + i.reserved)
Interleaves-total_units start = omega arith
Interleaves-total_units (next before last) =
    omega (arith, Interleaves-total_units before, RowStep-total_units last, RowStep-sold last)
