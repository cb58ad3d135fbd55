-- ===== src/Inventory/Availability.antt =====
-- When `reserveStock` succeeds: whatever the shelves cover can be reserved.
use vedhicfoods.Prelude.{
  ℕ, zero, suc, ◌+◌, ◌≤◌, ◌≡◌, refl, inl, inr, true, Option, none, some, List, [], ◌∷◌, arith,
  get_elem?, Bool-cases, leb,
}
use vedhicfoods.Prelude.Int.{pos_part}
use vedhicfoods.Result.{Succeeds->>=, Succeeds, Succeeds-not_err, Result}
use vedhicfoods.Inventory.State.{
  Product, Operation, Db, ReservationItem, has_key, with_product, max_inventory_quantity,
}
use vedhicfoods.Inventory.Rows.{reserve_row}
use vedhicfoods.Inventory.Service.{
  move_row, move_item, for_items, reserve_item, sort_items, insert_item, is_positive, reserve_stock,
}
use vedhicfoods.Inventory.Moves.{keys, resolves, demand, demand-cons, At}
use vedhicfoods.Inventory.Loops.{reserve_item-MovesItem, demand-sort_items}
use vedhicfoods.Inventory.Conservation.{
  on_hand, reserved, sold, Reserves, Reserves-IsAction, reserve_row-Reserves,
}

-- The row can give `n` units, and the columns can hold the result.
pub record Covers (n : ℕ) (p : Product) : Type 0 where
  pub enough : n ≤ on_hand p
  pub room : reserved p + n ≤ max_inventory_quantity
  pub in_range : on_hand p ≤ max_inventory_quantity
  pub sold_in_range : sold p ≤ max_inventory_quantity

reserve_row-Succeeds :
    (order : Option ℕ) (n : ℕ) (p : Product)
    → Covers n p
    → Succeeds (move_row Operation.reserve_stock order (reserve_row n) p)
unfolding move_row reserve_row
reserve_row-Succeeds order n p c = Succeeds-not_err _ λ e h. ground arith

-- The row that a key resolves to decides whether `with_product` succeeds.
pub with_product-Succeeds {ℓ} :
    {A : Type ℓ} (key i : ℕ) (step : Product → Result (Product × A)) (ps : List Product)
    → resolves key i (keys ps) ≡ true
    → ((p : Product) → get_elem? ps i ≡ some p → Succeeds (step p))
    → Succeeds (with_product key step ps)
unfolding with_product resolves
with_product-Succeeds key i step [] found h = cc
with_product-Succeeds key zero step (p ∷ ps) found h =
    rw found (Succeeds->>= (step p) _ (h p refl) (λ r _. (_, refl)))
with_product-Succeeds key (suc i) step (p ∷ ps) found h = elim (Bool-cases (has_key key p)) [
  | inl hit ↦ absurd (ground arith)
  | inr miss ↦ rw miss (
      Succeeds->>= (with_product key step ps) _
        (with_product-Succeeds key i step ps (ground arith) h) (λ r _. (_, refl)))
]

-- Every line asks for a positive quantity of a product that exists.
abbrev pub IsPlaced : List (ℕ × ℕ) → List ReservationItem → Type 0
IsPlaced ks [] = Unit
IsPlaced ks (item ∷ items) =
    (is_positive item.quantity ≡ true)
    × ((i : ℕ) × (resolves item.product i ks ≡ true))
    × IsPlaced ks items

-- Every product covers the whole quantity that the lines ask of it.
abbrev pub CoversOption : ℕ → Option Product → Type 0
CoversOption n none = Unit
CoversOption n (some p) = Covers n p

abbrev pub IsCovered : List Product → List ReservationItem → Type 0
IsCovered ps items = (i : ℕ) → CoversOption (demand (keys ps) i items) (get_elem? ps i)

-- What is left after one line still covers the others.
CoversOption-rest :
    (m n : ℕ) (o o' : Option Product)
    → CoversOption (m + n) o
    → At Reserves m o o'
    → CoversOption n o'
CoversOption-rest m n none none c r = tt
CoversOption-rest m n (some p) (some q) c r = omega arith
CoversOption-rest m n none (some q) c r = absurd r
CoversOption-rest m n (some p) none c r = absurd r

Covers-first : (m n : ℕ) (p : Product) → Covers (m + n) p → Covers m p
Covers-first m n p c = omega arith

reserve_item-Succeeds :
    (order : Option ℕ) (item : ReservationItem) (items : List ReservationItem) (db : Db) (i : ℕ)
    → is_positive item.quantity ≡ true
    → resolves item.product i (keys db.products) ≡ true
    → IsCovered db.products (item ∷ items)
    → Succeeds (reserve_item order item db)
unfolding reserve_item move_item demand
reserve_item-Succeeds order item items db i positive found c = rw positive (
    Succeeds->>=
      (with_product item.product
        (move_row Operation.reserve_stock order (reserve_row (pos_part item.quantity))) db.products)
      _
      (with_product-Succeeds item.product i
        (move_row Operation.reserve_stock order (reserve_row (pos_part item.quantity))) db.products
        found
        (λ p at.
          reserve_row-Succeeds order (pos_part item.quantity) p
            (Covers-first _ (demand (keys db.products) i items) p (rw (at, found) at (c i)))))
      (λ r _. (_, refl)))

-- Lines that are placed and covered are all reserved.
for_items-Succeeds :
    (order : Option ℕ) (items : List ReservationItem) (db : Db)
    → IsPlaced (keys db.products) items
    → IsCovered db.products items
    → Succeeds (for_items (reserve_item order) items db)
unfolding for_items
for_items-Succeeds order [] db placed c = (_, refl)
for_items-Succeeds order (item ∷ items) db placed c =
    let (i, found) = placed.1 in
    Succeeds->>= (reserve_item order item db) _
      (reserve_item-Succeeds order item items db i placed.0 found c)
      λ r first.
        let (same, moves) =
          reserve_item-MovesItem Reserves Reserves-IsAction reserve_row-Reserves order item db r.1
            r.0 first in
        Succeeds->>= (for_items (reserve_item order) items r.1) _
          (for_items-Succeeds order items r.1 (rw same placed.2)
            (λ j. rw same (CoversOption-rest _ _ _ _ (rw demand-cons at (c j)) (moves j))))
          (λ rest _. (_, refl))

IsPlaced-insert_item :
    (ks : List (ℕ × ℕ)) (x : ReservationItem) (ys : List ReservationItem)
    → IsPlaced ks (x ∷ ys)
    → IsPlaced ks (insert_item x ys)
unfolding insert_item
IsPlaced-insert_item ks x [] h = h
IsPlaced-insert_item ks x (y ∷ ys) h =
    let later = IsPlaced-insert_item ks x ys (h.0, h.1, h.2.2) in
    elim (Bool-cases (leb x.product y.product)) [
      | inl before ↦ rw before h
      | inr after ↦ rw after (h.2.0, h.2.1, later)
    ]

IsPlaced-sort_items :
    (ks : List (ℕ × ℕ)) (xs : List ReservationItem) → IsPlaced ks xs → IsPlaced ks (sort_items xs)
unfolding sort_items
IsPlaced-sort_items ks [] h = h
IsPlaced-sort_items ks (x ∷ xs) h =
    IsPlaced-insert_item ks x (sort_items xs) (h.0, h.1, IsPlaced-sort_items ks xs h.2)

-- `reserveStock` succeeds on a non-empty list of lines, each of a positive quantity of an existing
-- product, whenever every product has on hand the whole quantity asked of it, its reserve has room
-- for that quantity, and its numbers are in range.
pub reserve_stock-Succeeds :
    (item : ReservationItem) (items : List ReservationItem) (order : Option ℕ) (db : Db)
    → IsPlaced (keys db.products) (item ∷ items)
    → IsCovered db.products (item ∷ items)
    → Succeeds (reserve_stock (item ∷ items) order db)
unfolding reserve_stock
reserve_stock-Succeeds item items order db placed c =
    Succeeds->>= (for_items (reserve_item order) (sort_items (item ∷ items)) db) _
      (for_items-Succeeds order (sort_items (item ∷ items)) db
        (IsPlaced-sort_items (keys db.products) (item ∷ items) placed)
        (λ i. rw (demand-sort_items (keys db.products) i (item ∷ items)) (c i)))
      (λ r _. (_, refl))
