-- ===== src/Inventory/Loops.antt =====
-- The bodies and the order of the loops in backend/src/services/inventory.service.ts, as actions of
-- quantities on product rows.
use vedhicfoods.Prelude.{
  ℕ, ◌≡◌, refl, ◌∙◌, inl, inr, false, Option, List, [], ◌∷◌, arith, Bool-cases,
}
use vedhicfoods.Prelude.Int.{pos_part}
use vedhicfoods.Result.{Result, ok}
use vedhicfoods.Inventory.State.{Product, Inventory, InventoryLog, Operation, Db, ReservationItem}
use vedhicfoods.Inventory.Rows.{Change, reserve_row}
use vedhicfoods.Inventory.Service.{
  MovedItem, move_row, for_items, is_positive, reserve_item, credit_item, sort_items, insert_item,
  Tx,
}
use vedhicfoods.Inventory.Moves.{
  keys, demand, IsAction, Moves, MovesItem, Moves-none, move_item-Moves, for_items-Moves,
}

demand-insert_item :
    (ks : List (ℕ × ℕ)) (i : ℕ) (x : ReservationItem) (ys : List ReservationItem)
    → demand ks i (insert_item x ys) ≡ demand ks i (x ∷ ys)
unfolding demand insert_item
demand-insert_item ks i x [] = refl
demand-insert_item ks i x (y ∷ ys) = ground (arith, demand-insert_item ks i x ys)

-- The demand on a row does not depend on the order of the lines.
pub demand-sort_items :
    (ks : List (ℕ × ℕ)) (i : ℕ) (items : List ReservationItem)
    → demand ks i (sort_items items) ≡ demand ks i items
unfolding demand sort_items
demand-sort_items ks i [] = refl
demand-sort_items ks i (x ∷ xs) =
    demand-insert_item ks i x (sort_items xs) ∙ omega (arith, demand-sort_items ks i xs)

-- A line of no positive quantity asks for nothing.
demand-nonpositive :
    (ks : List (ℕ × ℕ)) (i : ℕ) (item : ReservationItem)
    → is_positive item.quantity ≡ false
    → demand ks i (item ∷ []) ≡ 0
unfolding demand
demand-nonpositive ks i item h = ground arith

module _ (R : ℕ → Product → Product → Type 0) where
  -- One row obeys the action, for every quantity.
  abbrev pub RowMoves : Operation → (ℕ → Inventory → Inventory → Result (Option Change)) → Type 0
  RowMoves op row =
      (order : Option ℕ) (n : ℕ) (p q : Product) (a : Option (InventoryLog × MovedItem))
      → move_row op order (row n) p ≡ ok (q, a)
      → R n p q

module _ (R : ℕ → Product → Product → Type 0) (act : IsAction R) where
  -- A successful loop over the sorted lines moves the whole demand.
  pub sorted-Moves :
      (body : ReservationItem → Tx (Option MovedItem))
      → MovesItem R body
      → (items : List ReservationItem) (db db' : Db) (moved : List MovedItem)
      → for_items body (sort_items items) db ≡ ok (moved, db')
      → Moves R (λ i. demand (keys db.products) i items) db.products db'.products
  sorted-Moves body h items db db' moved e =
      let (same, moves) = for_items-Moves R act body h (sort_items items) db db' moved e in
      (same, λ i. rw (demand-sort_items (keys db.products) i items) at (moves i))

  pub credit_item-MovesItem :
      (op : Operation) (row : ℕ → Inventory → Inventory → Result (Option Change))
      → RowMoves R op row
      → (order : Option ℕ) → MovesItem R (credit_item op row order)
  unfolding credit_item
  credit_item-MovesItem op row obeys order item db db' a e =
      elim (Bool-cases (is_positive item.quantity)) [
        | inl positive ↦
            move_item-Moves R act op order (row (pos_part item.quantity)) item
              (obeys order (pos_part item.quantity)) db db' a (rw positive at e)
        | inr skipped ↦
            Moves-none R act _ db.products db'.products (ground arith)
              (λ i. demand-nonpositive (keys db.products) i item skipped)
      ]

  pub reserve_item-MovesItem :
      RowMoves R Operation.reserve_stock reserve_row
      → (order : Option ℕ) → MovesItem R (reserve_item order)
  unfolding reserve_item
  reserve_item-MovesItem obeys order item db db' a e =
      elim (Bool-cases (is_positive item.quantity)) [
        | inl positive ↦
            move_item-Moves R act Operation.reserve_stock order
              (reserve_row (pos_part item.quantity)) item (obeys order (pos_part item.quantity)) db
              db' a (rw positive at e)
        | inr refused ↦ absurd (ground arith)
      ]
