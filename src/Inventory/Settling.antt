-- ===== src/Inventory/Settling.antt =====
-- When `releaseReservation` and `confirmDeduction` succeed: on every product that exists, whether or
-- not the quantities asked are held.
use vedhicfoods.Prelude.{
  ℕ, ◌+◌, ◌≤◌, ◌≡◌, refl, inl, inr, true, Option, none, some, List, [], ◌∷◌, arith, get_elem?,
  Bool-cases, leb,
}
use vedhicfoods.Prelude.Int.{pos_part}
use vedhicfoods.Result.{Succeeds->>=, Succeeds, Succeeds-not_err, Result}
use vedhicfoods.Inventory.State.{
  Product, Inventory, Operation, Db, ReservationItem, with_product, max_inventory_quantity,
}
use vedhicfoods.Inventory.Rows.{Change, release_row, confirm_row}
use vedhicfoods.Inventory.Service.{
  move_row, move_item, for_items, credit_item, sort_items, insert_item, is_positive,
  release_reservation, confirm_deduction,
}
use vedhicfoods.Inventory.Moves.{keys, resolves, At, IsAction}
use vedhicfoods.Inventory.Loops.{RowMoves, credit_item-MovesItem}
use vedhicfoods.Inventory.Conservation.{
  on_hand, reserved, sold, Releases, Releases-IsAction, release_row-Releases, Confirms,
  Confirms-IsAction, confirm_row-Confirms,
}
use vedhicfoods.Inventory.Availability.{with_product-Succeeds}

-- The reserve fits into the quantity on hand and into the sales.
pub record Fits (p : Product) : Type 0 where
  pub room_on_hand : on_hand p + reserved p ≤ max_inventory_quantity
  pub room_sold : sold p + reserved p ≤ max_inventory_quantity

abbrev pub FitsOption : Option Product → Type 0
FitsOption none = Unit
FitsOption (some p) = Fits p

abbrev pub FitsTable : List Product → Type 0
FitsTable ps = (i : ℕ) → FitsOption (get_elem? ps i)

-- Every line names a product that exists.
abbrev pub IsKnown : List (ℕ × ℕ) → List ReservationItem → Type 0
IsKnown ks [] = Unit
IsKnown ks (item ∷ items) = ((i : ℕ) × (resolves item.product i ks ≡ true)) × IsKnown ks items

IsKnown-insert_item :
    (ks : List (ℕ × ℕ)) (x : ReservationItem) (ys : List ReservationItem)
    → IsKnown ks (x ∷ ys)
    → IsKnown ks (insert_item x ys)
unfolding insert_item
IsKnown-insert_item ks x [] h = h
IsKnown-insert_item ks x (y ∷ ys) h =
    let later = IsKnown-insert_item ks x ys (h.0, h.1.1) in
    elim (Bool-cases (leb x.product y.product)) [
      | inl before ↦ rw before h
      | inr after ↦ rw after (h.1.0, later)
    ]

IsKnown-sort_items :
    (ks : List (ℕ × ℕ)) (xs : List ReservationItem) → IsKnown ks xs → IsKnown ks (sort_items xs)
unfolding sort_items
IsKnown-sort_items ks [] h = h
IsKnown-sort_items ks (x ∷ xs) h =
    IsKnown-insert_item ks x (sort_items xs) (h.0, IsKnown-sort_items ks xs h.1)

-- A loop whose row step succeeds on rows that fit, and keeps them fitting.
module _ (R : ℕ → Product → Product → Type 0) (act : IsAction R) (op : Operation)
    (row : ℕ → Inventory → Inventory → Result (Option Change)) (obeys : RowMoves R op row)
    (works : (order : Option ℕ) (n : ℕ) (p : Product)
      → Fits p
      → Succeeds (move_row op order (row n) p))
    (keeps : (n : ℕ) (p q : Product) → Fits p → R n p q → Fits q) where
  At-FitsOption : (n : ℕ) (o o' : Option Product) → FitsOption o → At R n o o' → FitsOption o'
  At-FitsOption n none none f r = tt
  At-FitsOption n (some p) (some q) f r = keeps n p q f r
  At-FitsOption n none (some q) f r = absurd r
  At-FitsOption n (some p) none f r = absurd r

  credit_item-Succeeds :
      (order : Option ℕ) (item : ReservationItem) (db : Db) (i : ℕ)
      → resolves item.product i (keys db.products) ≡ true
      → FitsTable db.products
      → Succeeds (credit_item op row order item db)
  unfolding credit_item move_item
  credit_item-Succeeds order item db i found f = elim (Bool-cases (is_positive item.quantity)) [
    | inr skipped ↦ rw skipped (_, refl)
    | inl positive ↦ rw positive (
        Succeeds->>=
          (with_product item.product (move_row op order (row (pos_part item.quantity))) db.products)
          _
          (with_product-Succeeds item.product i (move_row op order (row (pos_part item.quantity)))
            db.products found (λ p at. works order (pos_part item.quantity) p (rw at at (f i))))
          (λ r _. (_, refl)))
  ]

  pub credited-Succeeds :
      (order : Option ℕ) (items : List ReservationItem) (db : Db)
      → IsKnown (keys db.products) items
      → FitsTable db.products
      → Succeeds (for_items (credit_item op row order) items db)
  unfolding for_items
  credited-Succeeds order [] db known f = (_, refl)
  credited-Succeeds order (item ∷ items) db known f =
      let (i, found) = known.0 in
      Succeeds->>= (credit_item op row order item db) _
        (credit_item-Succeeds order item db i found f)
        λ r first.
          let (same, moves) =
            credit_item-MovesItem R act op row obeys order item db r.1 r.0 first in
          Succeeds->>= (for_items (credit_item op row order) items r.1) _
            (credited-Succeeds order items r.1 (rw same known.1) (λ j.
              At-FitsOption _ (get_elem? db.products j) (get_elem? r.1.products j) (f j) (moves j)))
            (λ rest _. (_, refl))

release_row-Succeeds :
    (order : Option ℕ) (n : ℕ) (p : Product)
    → Fits p
    → Succeeds (move_row Operation.release_reservation order (release_row n) p)
unfolding move_row release_row
release_row-Succeeds order n p f = Succeeds-not_err _ λ e h. ground arith

confirm_row-Succeeds :
    (order : Option ℕ) (n : ℕ) (p : Product)
    → Fits p
    → Succeeds (move_row Operation.confirm_deduction order (confirm_row n) p)
unfolding move_row confirm_row
confirm_row-Succeeds order n p f = Succeeds-not_err _ λ e h. ground arith

Releases-Fits : (n : ℕ) (p q : Product) → Fits p → Releases n p q → Fits q
Releases-Fits n p q f r = record { room_on_hand = omega arith; room_sold = omega arith }

Confirms-Fits : (n : ℕ) (p q : Product) → Fits p → Confirms n p q → Fits q
Confirms-Fits n p q f r = record { room_on_hand = omega arith; room_sold = omega arith }

-- `releaseReservation` and `confirmDeduction` both succeed on any lines whose products exist, when for
-- every product the reserve fits into the columns of the quantity on hand and of the sales.
pub settle-Succeeds :
    (items : List ReservationItem) (order : Option ℕ) (db : Db)
    → IsKnown (keys db.products) items
    → FitsTable db.products
    → Succeeds (release_reservation items order db) × Succeeds (confirm_deduction items order db)
unfolding release_reservation confirm_deduction
settle-Succeeds [] order db known f = ((_, refl), (_, refl))
settle-Succeeds (item ∷ items) order db known f =
    let sorted = IsKnown-sort_items (keys db.products) (item ∷ items) known in
    (
      Succeeds->>=
          (for_items (credit_item Operation.release_reservation release_row order)
            (sort_items (item ∷ items)) db)
          _
          (credited-Succeeds Releases Releases-IsAction Operation.release_reservation release_row
            release_row-Releases release_row-Succeeds Releases-Fits order
            (sort_items (item ∷ items)) db sorted f)
          (λ r _. (_, refl)),
      Succeeds->>=
          (for_items (credit_item Operation.confirm_deduction confirm_row order)
            (sort_items (item ∷ items)) db)
          _
          (credited-Succeeds Confirms Confirms-IsAction Operation.confirm_deduction confirm_row
            confirm_row-Confirms confirm_row-Succeeds Confirms-Fits order
            (sort_items (item ∷ items)) db sorted f)
          (λ r _. (_, refl)),
    )
