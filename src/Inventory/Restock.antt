-- ===== src/Inventory/Restock.antt =====
-- The idempotency guard of `restockOrder`: the RESTOCK entry of the movement log.
use vedhicfoods.Prelude.{
  subst, ◌∙◌, ℕ, ◌≡◌, refl, ◌⊎◌, inl, inr, Bool, true, ◌||◌, Option, none, some, List, [], ◌∷◌,
  arith, any_by, Bool-cases, ==_iff,
}
use vedhicfoods.Prelude.Int.{pos_part}
use vedhicfoods.Result.{Result, ok, >>=-eq-ok}
use vedhicfoods.Inventory.State.{
  Product, InventoryLog, AuditAction, Operation, Db, ReservationItem, with_product,
}
use vedhicfoods.Inventory.Rows.{restock_row}
use vedhicfoods.Inventory.Service.{
  MovedItem, move_row, move_item, record_log, for_items, credit_item, sort_items, insert_item,
  audited, is_positive, is_restock_of, already_restocked, restock_order,
}
use vedhicfoods.Inventory.Moves.{with_product_cases}

abbrev pub asks : ReservationItem → Bool
asks item = is_positive item.quantity

-- A row that is restocked is logged for its order.
IsLogged : ℕ → Option (InventoryLog × MovedItem) → Type 0
IsLogged order none = ⊥
IsLogged order (some (log, moved)) = is_restock_of order log ≡ true

restock_row-IsLogged :
    (order n : ℕ) (p q : Product) (a : Option (InventoryLog × MovedItem))
    → move_row Operation.restock (some order) (restock_row n) p ≡ ok (q, a)
    → IsLogged order a
unfolding move_row restock_row IsLogged is_restock_of
restock_row-IsLogged order n p q none e = ground arith
restock_row-IsLogged order n p q (some (log, moved)) e = ground (arith, ==_iff order order)

-- What `with_product` returns comes from the row that it found.
with_product-IsLogged :
    (order n key : ℕ) (ps qs : List Product) (a : Option (InventoryLog × MovedItem))
    → with_product key (move_row Operation.restock (some order) (restock_row n)) ps ≡ ok (qs, a)
    → IsLogged order a
unfolding with_product
with_product-IsLogged order n key [] qs a e = cc
with_product-IsLogged order n key (p ∷ ps) qs a e =
    elim (with_product_cases key (move_row Operation.restock (some order) (restock_row n)) p ps qs a
      e) [
        | inl (hit, (q, done, written)) ↦ restock_row-IsLogged order n p q a done
        | inr (miss, (rest, done, written)) ↦ with_product-IsLogged order n key ps rest a done
      ]

record_log-restocked :
    (order : ℕ) (entry : Option (InventoryLog × MovedItem)) (db db' : Db) (a : Option MovedItem)
    → IsLogged order entry
    → ◌≡◌ {A = Result (Option MovedItem × Db)} (ok (record_log entry db)) (ok (a, db'))
    → already_restocked (some order) db' ≡ true
unfolding record_log already_restocked IsLogged
record_log-restocked order none db db' a h e = absurd h
record_log-restocked order (some (log, moved)) db db' a h e = ground arith

-- A line either asks for something, and is logged, or leaves the tables alone; no entry is lost.
credit_item-restocked :
    (order : ℕ) (item : ReservationItem) (db db' : Db) (a : Option MovedItem)
    → credit_item Operation.restock restock_row (some order) item db ≡ ok (a, db')
    → asks item ≡ true ⊎ already_restocked (some order) db ≡ true
    → already_restocked (some order) db' ≡ true
unfolding credit_item move_item already_restocked
credit_item-restocked order item db db' a e h = elim (Bool-cases (asks item)) [
  | inl positive ↦
      let (r, found, done) =
        >>=-eq-ok
          (with_product item.product
            (move_row Operation.restock (some order) (restock_row (pos_part item.quantity)))
            db.products)
          _ (rw positive at e) in
      let logged =
        with_product-IsLogged order (pos_part item.quantity) item.product db.products r.0 r.1
          found in
      record_log-restocked order r.1 (record db { products = r.0 }) db' a logged done
  | inr skipped ↦ ground arith
]

restocked_so_far :
    (order : ℕ) (item : ReservationItem) (items : List ReservationItem) (db db' : Db)
    (a : Option MovedItem)
    → credit_item Operation.restock restock_row (some order) item db ≡ ok (a, db')
    → (any_by asks (item ∷ items) ≡ true) ⊎ (already_restocked (some order) db ≡ true)
    → (any_by asks items ≡ true) ⊎ (already_restocked (some order) db' ≡ true)
restocked_so_far order item items db db' a e (inr old) =
    inr (credit_item-restocked order item db db' a e (inr old))
restocked_so_far order item items db db' a e (inl h) = elim (Bool-cases (asks item)) [
  | inl positive ↦ inr (credit_item-restocked order item db db' a e (inl positive))
  | inr skipped ↦ inl (ground arith)
]

for_items-restocked :
    (order : ℕ) (items : List ReservationItem) (db db' : Db) (moved : List MovedItem)
    → for_items (credit_item Operation.restock restock_row (some order)) items db ≡ ok (moved, db')
    → any_by asks items ≡ true ⊎ already_restocked (some order) db ≡ true
    → already_restocked (some order) db' ≡ true
unfolding for_items
for_items-restocked order [] db db' moved e (inl h) = cc
for_items-restocked order [] db db' moved e (inr h) = unfold already_restocked in ground arith
for_items-restocked order (item ∷ items) db db' moved e h =
    let body = credit_item Operation.restock restock_row (some order) in
    let (r, first, later) = >>=-eq-ok (body item db) _ e in
    let (rest, others, done) = >>=-eq-ok (for_items body items r.1) _ later in
    let end : rest.1 ≡ db' = ground arith in
    let next : (any_by asks items ≡ true) ⊎ (already_restocked (some order) r.1 ≡ true) =
      restocked_so_far order item items db r.1 r.0 first h in
    subst (λ (d : Db). already_restocked (some order) d ≡ true) end
      (for_items-restocked order items r.1 rest.1 rest.0 others next)

any_by-insert_item :
    (x : ReservationItem) (ys : List ReservationItem)
    → any_by asks (insert_item x ys) ≡ asks x || any_by asks ys
unfolding insert_item
any_by-insert_item x [] = refl
any_by-insert_item x (y ∷ ys) = ground (arith, any_by-insert_item x ys)

any_by-sort_items : (xs : List ReservationItem) → any_by asks (sort_items xs) ≡ any_by asks xs
unfolding sort_items
any_by-sort_items [] = refl
any_by-sort_items (x ∷ xs) =
    ground (arith, any_by-sort_items xs, any_by-insert_item x (sort_items xs))

restock_order-restocked :
    (order : ℕ) (items : List ReservationItem) (db db' : Db) (moved : List MovedItem)
    → any_by asks items ≡ true
    → restock_order items (some order) db ≡ ok (moved, db')
    → already_restocked (some order) db' ≡ true
unfolding restock_order audited already_restocked
restock_order-restocked order [] db db' moved positive e = cc
restock_order-restocked order (item ∷ items) db db' moved positive e =
    elim (Bool-cases (already_restocked (some order) db)) [
      | inl again ↦ ground arith
      | inr first ↦
          let (r, done, end) =
            >>=-eq-ok
              (for_items (credit_item Operation.restock restock_row (some order))
                (sort_items (item ∷ items)) db)
              _ (rw first at e) in
          let kept =
            for_items-restocked order (sort_items (item ∷ items)) db r.1 r.0 done
              (inl (any_by-sort_items (item ∷ items) ∙ positive)) in
          ground arith
    ]

-- Once `restockOrder` has succeeded for an order with a line of positive quantity, every later
-- restock of that order succeeds with no item and changes no product and no log entry.
pub restock_order-restock_order :
    (order : ℕ) (items : List ReservationItem) (db db' : Db) (moved : List MovedItem)
    → any_by asks items ≡ true
    → restock_order items (some order) db ≡ ok (moved, db')
    → (items' : List ReservationItem)
    → (again : Db) × (restock_order items' (some order) db' ≡ ok ([], again))
      × (again.products ≡ db'.products)
      × (again.logs ≡ db'.logs)
unfolding restock_order
restock_order-restock_order order items db db' moved positive e [] = (db', refl, refl, refl)
restock_order-restock_order order items db db' moved positive e (item' ∷ items') = (
  audited AuditAction.stock_restocked (some order) db',
  rw (restock_order-restocked order items db db' moved positive e),
  unfold audited in refl,
  unfold audited in refl,
)
