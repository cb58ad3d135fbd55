-- ===== src/Inventory/Conservation.antt =====
-- No operation creates or loses stock: what `reserveStock`, `releaseReservation`, `confirmDeduction`
-- and `restockOrder` do to the numbers of every product, for any list of lines.
use vedhicfoods.Prelude.{
  ℕ, ◌+◌, ◌-◌, ◌≡◌, min, Option, none, some, true, false, List, [], ◌∷◌, arith,
}
use vedhicfoods.Result.{Result, ok, >>=-eq-ok}
use vedhicfoods.Inventory.State.{Inventory, Product, Operation, Db, ReservationItem}
use vedhicfoods.Inventory.Rows.{Change, reserve_row, release_row, confirm_row, restock_row}
use vedhicfoods.Inventory.Service.{
  move_row, MovedItem, reserve_stock, release_reservation, confirm_deduction, restock_order,
  audited, for_items, reserve_item, credit_item, sort_items, already_restocked,
}
use vedhicfoods.Inventory.Moves.{keys, demand, IsAction, Moves, Moves-none, demand-nil}
use vedhicfoods.Inventory.Loops.{
  RowMoves, sorted-Moves, credit_item-MovesItem, reserve_item-MovesItem,
}

-- The quantities of a product; one without an inventory row has its `stock` on hand.
abbrev pub on_hand : Product → ℕ
on_hand p = elim p.inventory [ none ↦ p.stock | some i ↦ i.available ]

abbrev pub reserved : Product → ℕ
reserved p = elim p.inventory [ none ↦ 0 | some i ↦ i.reserved ]

abbrev pub sold : Product → ℕ
sold p = elim p.inventory [ none ↦ 0 | some i ↦ i.sold ]

-- Reserving `n` units takes them from the shelf and holds them.
pub record Reserves (n : ℕ) (p q : Product) : Type 0 where
  pub same_id : p.id ≡ q.id
  pub same_slug : p.slug ≡ q.slug
  pub taken : on_hand q + n ≡ on_hand p
  pub held : reserved q ≡ reserved p + n
  pub same_sold : sold q ≡ sold p

-- Releasing `n` units puts back as many as are held.
pub record Releases (n : ℕ) (p q : Product) : Type 0 where
  pub same_id : p.id ≡ q.id
  pub same_slug : p.slug ≡ q.slug
  pub back : on_hand q ≡ on_hand p + min (reserved p) n
  pub held : reserved q ≡ reserved p - n
  pub same_sold : sold q ≡ sold p

-- Confirming `n` units sells as many as are held.
pub record Confirms (n : ℕ) (p q : Product) : Type 0 where
  pub same_id : p.id ≡ q.id
  pub same_slug : p.slug ≡ q.slug
  pub same_on_hand : on_hand q ≡ on_hand p
  pub held : reserved q ≡ reserved p - n
  pub more_sold : sold q ≡ sold p + min (reserved p) n

-- Restocking `n` units puts all of them on the shelf and takes back at most what was sold.
pub record Restocks (n : ℕ) (p q : Product) : Type 0 where
  pub same_id : p.id ≡ q.id
  pub same_slug : p.slug ≡ q.slug
  pub back : on_hand q ≡ on_hand p + n
  pub same_reserved : reserved q ≡ reserved p
  pub less_sold : sold q ≡ sold p - n

pub Reserves-IsAction : IsAction Reserves
Reserves-IsAction = record {
  idle = λ p. omega arith;
  twice = λ m n p q r h k. omega arith;
  same_id = λ n p q h. h.same_id;
  same_slug = λ n p q h. h.same_slug;
}

pub Releases-IsAction : IsAction Releases
Releases-IsAction = record {
  idle = λ p. omega arith;
  twice = λ m n p q r h k. omega arith;
  same_id = λ n p q h. h.same_id;
  same_slug = λ n p q h. h.same_slug;
}

pub Confirms-IsAction : IsAction Confirms
Confirms-IsAction = record {
  idle = λ p. omega arith;
  twice = λ m n p q r h k. omega arith;
  same_id = λ n p q h. h.same_id;
  same_slug = λ n p q h. h.same_slug;
}

pub Restocks-IsAction : IsAction Restocks
Restocks-IsAction = record {
  idle = λ p. omega arith;
  twice = λ m n p q r h k. omega arith;
  same_id = λ n p q h. h.same_id;
  same_slug = λ n p q h. h.same_slug;
}

pub reserve_row-Reserves : RowMoves Reserves Operation.reserve_stock reserve_row
unfolding move_row reserve_row
reserve_row-Reserves order n p q a e = ground arith

pub release_row-Releases : RowMoves Releases Operation.release_reservation release_row
unfolding move_row release_row
release_row-Releases order n p q a e = ground arith

pub confirm_row-Confirms : RowMoves Confirms Operation.confirm_deduction confirm_row
unfolding move_row confirm_row
confirm_row-Confirms order n p q a e = ground arith

pub restock_row-Restocks : RowMoves Restocks Operation.restock restock_row
unfolding move_row restock_row
restock_row-Restocks order n p q a e = ground arith

-- A successful `reserveStock` takes from every product exactly the quantity that the lines ask of
-- it, holds that quantity in reserve, and changes neither what was sold nor any other product.
pub reserve_stock-Reserves :
    (items : List ReservationItem) (order : Option ℕ) (db db' : Db) (moved : List MovedItem)
    → reserve_stock items order db ≡ ok (moved, db')
    → Moves Reserves (λ i. demand (keys db.products) i items) db.products db'.products
unfolding reserve_stock audited
reserve_stock-Reserves [] order db db' moved e = cc
reserve_stock-Reserves (item ∷ items) order db db' moved e =
    let (r, done, end) =
      >>=-eq-ok (for_items (reserve_item order) (sort_items (item ∷ items)) db) _ e in
    let same : db'.products ≡ r.1.products = ground arith in
    rw same (
      sorted-Moves Reserves Reserves-IsAction (reserve_item order)
        (reserve_item-MovesItem Reserves Reserves-IsAction reserve_row-Reserves order)
        (item ∷ items) db r.1 r.0 done)

-- The three methods that credit a row, and skip lines of no positive quantity.
credited-Moves :
    (R : ℕ → Product → Product → Type 0) (act : IsAction R) (op : Operation)
    (row : ℕ → Inventory → Inventory → Result (Option Change))
    → RowMoves R op row
    → (items : List ReservationItem) (order : Option ℕ) (db db' : Db) (moved : List MovedItem)
    → for_items (credit_item op row order) (sort_items items) db ≡ ok (moved, db')
    → Moves R (λ i. demand (keys db.products) i items) db.products db'.products
credited-Moves R act op row obeys items order db db' moved e =
    sorted-Moves R act (credit_item op row order) (credit_item-MovesItem R act op row obeys order)
      items db db' moved e

-- A successful `releaseReservation` gives back to every product the quantity asked of it, or what
-- is held if that is less, and changes nothing else.
pub release_reservation-Releases :
    (items : List ReservationItem) (order : Option ℕ) (db db' : Db) (moved : List MovedItem)
    → release_reservation items order db ≡ ok (moved, db')
    → Moves Releases (λ i. demand (keys db.products) i items) db.products db'.products
unfolding release_reservation audited
release_reservation-Releases [] order db db' moved e =
    Moves-none Releases Releases-IsAction _ db.products db'.products (ground arith)
      (λ i. demand-nil (keys db.products) i)
release_reservation-Releases (item ∷ items) order db db' moved e =
    let (r, done, end) =
      >>=-eq-ok
        (for_items (credit_item Operation.release_reservation release_row order)
          (sort_items (item ∷ items)) db)
        _ e in
    let same : db'.products ≡ r.1.products = ground arith in
    rw same (
      credited-Moves Releases Releases-IsAction Operation.release_reservation release_row
        release_row-Releases (item ∷ items) order db r.1 r.0 done)

-- A successful `confirmDeduction` turns into sales the quantity asked of every product, or what is
-- held if that is less; the quantity on hand stays.
pub confirm_deduction-Confirms :
    (items : List ReservationItem) (order : Option ℕ) (db db' : Db) (moved : List MovedItem)
    → confirm_deduction items order db ≡ ok (moved, db')
    → Moves Confirms (λ i. demand (keys db.products) i items) db.products db'.products
unfolding confirm_deduction audited
confirm_deduction-Confirms [] order db db' moved e =
    Moves-none Confirms Confirms-IsAction _ db.products db'.products (ground arith)
      (λ i. demand-nil (keys db.products) i)
confirm_deduction-Confirms (item ∷ items) order db db' moved e =
    let (r, done, end) =
      >>=-eq-ok
        (for_items (credit_item Operation.confirm_deduction confirm_row order)
          (sort_items (item ∷ items)) db)
        _ e in
    let same : db'.products ≡ r.1.products = ground arith in
    rw same (
      credited-Moves Confirms Confirms-IsAction Operation.confirm_deduction confirm_row
        confirm_row-Confirms (item ∷ items) order db r.1 r.0 done)

-- The first successful `restockOrder` for an order puts the whole quantity asked of every product
-- on hand, and takes from its sales as much as they hold; what is reserved stays.
pub restock_order-Restocks :
    (items : List ReservationItem) (order : Option ℕ) (db db' : Db) (moved : List MovedItem)
    → already_restocked order db ≡ false
    → restock_order items order db ≡ ok (moved, db')
    → Moves Restocks (λ i. demand (keys db.products) i items) db.products db'.products
unfolding restock_order audited
restock_order-Restocks [] order db db' moved first e =
    Moves-none Restocks Restocks-IsAction _ db.products db'.products (ground arith)
      (λ i. demand-nil (keys db.products) i)
restock_order-Restocks (item ∷ items) order db db' moved first e =
    let (r, done, end) =
      >>=-eq-ok
        (for_items (credit_item Operation.restock restock_row order) (sort_items (item ∷ items)) db)
        _ (rw first at e) in
    let same : db'.products ≡ r.1.products = ground arith in
    rw same (
      credited-Moves Restocks Restocks-IsAction Operation.restock restock_row restock_row-Restocks
        (item ∷ items) order db r.1 r.0 done)

-- A `restockOrder` for an order that was restocked before changes no product.
pub restock_order-again :
    (items : List ReservationItem) (order : Option ℕ) (db db' : Db) (moved : List MovedItem)
    → already_restocked order db ≡ true
    → restock_order items order db ≡ ok (moved, db')
    → db'.products ≡ db.products
unfolding restock_order audited
restock_order-again [] order db db' moved again e = ground arith
restock_order-again (item ∷ items) order db db' moved again e =
    let e' = rw again at e in ground arith
