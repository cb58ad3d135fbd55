-- ===== src/Cart/Adding.antt =====
-- What `addItem` of backend/src/services/cart.service.ts adds, and the bound on a line.
use vedhicfoods.Prelude.{
  ℕ, ◌+◌, ◌≤◌, ◌≡◌, false, some, List, [], ◌∷◌, arith, ◌&&◌, ◌==◌, Bool-cases, Option-cases, inl,
  inr, ltb,
}
use vedhicfoods.Prelude.Int.{ℤ, pos_part}
use vedhicfoods.Result.{Result, ok, err, ◌>>◌, >>=-eq-ok}
use vedhicfoods.Cart.Store.{
  Cart, CartDb, CartItem, CatalogProduct, Identity, find_line, find_cart, find_for_sale,
  available_quantity,
}
use vedhicfoods.Cart.Service.{
  add_line, add_in_transaction, add_item, ensure_cart, new_quantity, find_unique_cart, answer,
}
use vedhicfoods.Cart.Lines.{line_quantity, line_quantity-upsert_line}

find_line-line_quantity :
    (cart product qty : ℕ) (is : List CartItem)
    → new_quantity (find_line cart product is) qty ≡ line_quantity cart product is + qty
unfolding new_quantity find_line line_quantity
find_line-line_quantity cart product qty [] = omega arith
find_line-line_quantity cart product qty (i ∷ is) =
    ground (arith, find_line-line_quantity cart product qty is)

-- One more quantity of one product in one cart, within its stock and the limit, and no other change.
pub record Adds (qty cart : ℕ) (p : CatalogProduct) (db db' : CartDb) : Type 0 where
  pub within_stock : line_quantity cart p.base.id db'.items ≤ available_quantity p
  pub within_limit : line_quantity cart p.base.id db'.items ≤ 100
  pub added : line_quantity cart p.base.id db'.items ≡ line_quantity cart p.base.id db.items + qty
  pub others :
      (c k : ℕ)
      → (c == cart && k == p.base.id) ≡ false
      → line_quantity c k db'.items ≡ line_quantity c k db.items

add_line-Adds :
    (p : CatalogProduct) (qty cart : ℕ) (db db' : CartDb)
    → add_line p qty cart db ≡ ok db'
    → Adds qty cart p db db'
unfolding add_line
add_line-Adds p qty cart db db' e =
    let item : CartItem = record {
      id = db.next_id;
      cart = cart;
      product = p.base.id;
      quantity = new_quantity (find_line cart p.base.id db.items) qty;
      price_snapshot = p.price;
    } in
    let same = find_line-line_quantity cart p.base.id qty db.items in
    record {
      within_stock = ground (arith, line_quantity-upsert_line item cart p.base.id db.items);
      within_limit = ground (arith, line_quantity-upsert_line item cart p.base.id db.items);
      added = ground (arith, same, line_quantity-upsert_line item cart p.base.id db.items);
      others = λ c k h. ground (arith, line_quantity-upsert_line item c k db.items);
    }

pub >>-eq-ok :
    (m : Result (Unit {0})) (k : Result CartDb) {db : CartDb} → (m >> k) ≡ ok db → k ≡ ok db
>>-eq-ok (ok done) k e = e
>>-eq-ok (err x) k e = cc

find_unique_cart-ok :
    (who : Identity) (db : CartDb) (cart : Cart)
    → find_unique_cart who db ≡ ok cart
    → find_cart who db.carts ≡ some cart
unfolding find_unique_cart
find_unique_cart-ok who db cart e = ground arith

-- A successful transaction writes into the cart of the identity, for a product on sale.
pub add_in_transaction-found :
    (key qty : ℕ) (who : Identity) (db db' : CartDb)
    → add_in_transaction key qty who db ≡ ok db'
    → (p : CatalogProduct) × (cart : Cart) × (find_for_sale key db.products ≡ some p)
      × (find_cart who db.carts ≡ some cart)
      × (add_line p qty cart.id db ≡ ok db')
unfolding add_in_transaction
add_in_transaction-found key qty who db db' e =
    elim (Option-cases (find_for_sale key db.products)) [
      | inl missing ↦ absurd (cc (rw (missing, add_in_transaction) at e))
      | inr (p, found) ↦
          let later = >>-eq-ok _ _ (rw (found, add_in_transaction) at e) in
          let (cart, own, done) = >>=-eq-ok (find_unique_cart who db) _ later in
          (p, cart, found, find_unique_cart-ok who db cart own, done)
    ]

pub ensure_cart-items : (who : Identity) (db : CartDb) → (ensure_cart who db).items ≡ db.items
unfolding ensure_cart
ensure_cart-items who db = ground arith

Adds-items :
    (qty cart : ℕ) (p : CatalogProduct) (db ensured db' : CartDb)
    → ensured.items ≡ db.items
    → Adds qty cart p ensured db'
    → Adds qty cart p db db'
Adds-items qty cart p db ensured db' same a = record {
  within_stock = a.within_stock;
  within_limit = a.within_limit;
  added = rw same at a.added;
  others = λ c k h. rw same at (a.others c k h);
}

ensure_cart-products : (who : Identity) (db : CartDb) → (ensure_cart who db).products ≡ db.products
unfolding ensure_cart
ensure_cart-products who db = ground arith

pub answer-ok :
    (db db' : CartDb) (r : Result CartDb)
    → ◌≡◌ {A = Result (Unit {0}) × CartDb} (answer db r) (ok tt, db')
    → r ≡ ok db'
answer-ok db db' (ok x) e = cc
answer-ok db db' (err x) e = cc

-- A successful `addItem` adds exactly the asked quantity to the line of a product that is for sale, in
-- the cart of the caller, within the product's stock and within 100 units, and changes no other line
-- of any cart.
pub add_item-Adds :
    (key : ℕ) (qty : ℤ) (who : Identity) (db db' : CartDb)
    → add_item key (some qty) who db ≡ (ok tt, db')
    → (p : CatalogProduct) × (cart : Cart) × (find_for_sale key db.products ≡ some p)
      × (find_cart who (ensure_cart who db).carts ≡ some cart)
      × Adds (pos_part qty) cart.id p db db'
unfolding add_item
add_item-Adds key qty who db db' e = elim (Bool-cases (ltb 0 (pos_part qty))) [
  | inl positive ↦
      let ensured = ensure_cart who db in
      let done = answer-ok ensured db' _ (rw positive at e) in
      let (p, cart, found, own, last) =
        add_in_transaction-found key (pos_part qty) who ensured db' done in
      let adds = add_line-Adds p (pos_part qty) cart.id ensured db' last in
      (
        p,
        cart,
        rw (ensure_cart-products who db) at found,
        own,
        Adds-items (pos_part qty) cart.id p db ensured db' (ensure_cart-items who db) adds,
      )
  | inr refused ↦ absurd (ground arith)
]
