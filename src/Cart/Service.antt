-- ===== src/Cart/Service.antt =====
-- backend/src/services/cart.service.ts, method by method. A method answers and returns the tables;
-- the cart that a successful answer carries is `format_cart_with_inventory` of the new tables.
-- `addItem` creates the cart before its transaction, so that an error in it keeps the new cart.
use vedhicfoods.Prelude.{
  ℕ, ◌+◌, Bool, false, ◌&&◌, not, Option, none, some, List, [], ◌∷◌, filter_by, any_by, ◌++◌, ltb,
  leb, ◌==◌, if◌then◌else◌,
}
use vedhicfoods.Prelude.Int.{ℤ, pos, negsuc, pos_part}
use vedhicfoods.Result.{
  Result, ok, err, bad_request, not_found, forbidden, database, require, ◌>>=◌, ◌>>◌,
}
use vedhicfoods.Inventory.State.{has_key}
use vedhicfoods.Cart.Store.{
  Cart, CartItem, CartDb, CatalogProduct, Identity, find_cart, same_key, find_product,
  find_for_sale, available_quantity, find_line, upsert_line, find_item, update_item, delete_item,
}

-- The row that `upsert` creates for an identity.
unfoldable pub new_cart : ℕ → Identity → Cart
new_cart id who = elim who.user [
  | some u ↦ record { id = id; user = some u; session_token = none }
  | none ↦ record { id = id; user = none; session_token = who.session_token }
]

abbrev pub is_anonymous : Identity → Bool
is_anonymous who = same_key who.user none && same_key who.session_token none

-- `cart.upsert`, which an identity without user and session skips.
unfoldable pub ensure_cart : Identity → CartDb → CartDb
unfolding find_cart new_cart
ensure_cart who db = elim (find_cart who db.carts) [
  | some c ↦ db
  | none ↦ if is_anonymous who then db else record db {
    carts = db.carts ++ (new_cart db.next_id who ∷ []);
    next_id = db.next_id + 1;
  }
]

-- `cart.findUnique`, which refuses a null key.
unfoldable pub find_unique_cart : Identity → CartDb → Result Cart
unfolding find_cart
find_unique_cart who db =
    if is_anonymous who
    then err database
    else elim (find_cart who db.carts) [ none ↦ err bad_request | some cart ↦ ok cart ]

-- What a line may hold: no more than is available, and at most 100 units.
abbrev pub check_quantity : ℕ → ℕ → Result (Unit {0})
check_quantity quantity available =
    require (leb quantity available) bad_request >> require (leb quantity 100) bad_request

-- `existingItem ? existingItem.quantity + qty : qty`
unfoldable pub new_quantity : Option CartItem → ℕ → ℕ
new_quantity none qty = qty
new_quantity (some i) qty = i.quantity + qty

-- The line that `addItem` writes for a product, in a cart that was found.
unfoldable pub add_line : CatalogProduct → ℕ → ℕ → CartDb → Result CartDb
unfolding new_quantity find_line upsert_line
add_line p qty cart db =
    let quantity = new_quantity (find_line cart p.base.id db.items) qty in
    check_quantity quantity (available_quantity p)
    >> ok (record db {
      items =
          upsert_line
            (record {
              id = db.next_id;
              cart = cart;
              product = p.base.id;
              quantity = quantity;
              price_snapshot = p.price;
            })
            db.items;
      next_id = db.next_id + 1;
    })

-- The transaction of `addItem`.
unfoldable pub add_in_transaction : ℕ → ℕ → Identity → CartDb → Result CartDb
unfolding add_line find_for_sale find_unique_cart
add_in_transaction key qty who db = elim (find_for_sale key db.products) [
  | none ↦ err not_found
  | some p ↦
      require (p.is_active && p.is_published) bad_request
      >> require (ltb 0 (available_quantity p)) bad_request
      >> (find_unique_cart who db >>= λ cart. add_line p qty cart.id db)
]

-- The tables after an answer: an error in a transaction leaves them.
abbrev pub answer : CartDb → Result CartDb → Result (Unit {0}) × CartDb
answer db (ok db') = (ok tt, db')
answer db (err e) = (err e, db)

-- `addItem`; `none` is a quantity that `parseInt` reads as NaN.
unfoldable pub add_item : ℕ → Option ℤ → Identity → CartDb → Result (Unit {0}) × CartDb
unfolding add_in_transaction ensure_cart
add_item key none who db = (err bad_request, db)
add_item key (some qty) who db =
    if ltb 0 (pos_part qty)
    then answer (ensure_cart who db)
        (add_in_transaction key (pos_part qty) who (ensure_cart who db))
    else (err bad_request, db)

-- Whether the line's product has this id or slug.
unfoldable pub is_of_product : ℕ → List CatalogProduct → CartItem → Bool
unfolding find_product
is_of_product key products i = elim (find_product i.product products) [
  | none ↦ false
  | some p ↦ has_key key p.base
]

unfoldable pub find_by : (CartItem → Bool) → List CartItem → Option CartItem
find_by test [] = none
find_by test (i ∷ is) = if test i then some i else find_by test is

-- `resolveCartItem`
unfoldable pub resolve_cart_item : ℕ → ℕ → CartDb → Result CartItem
unfolding find_item find_by is_of_product
resolve_cart_item cart key db = elim (find_item key db.items) [
  | some i ↦ if i.cart == cart then ok i else err forbidden
  | none ↦ elim (find_by (λ i. i.cart == cart && is_of_product key db.products i) db.items) [
    | some i ↦ ok i
    | none ↦
        if any_by (is_of_product key db.products) db.items then err forbidden else err not_found
  ]
]

-- The write of `updateItemQuantity`; the foreign key makes the product exist.
unfoldable pub write_quantity : ℕ → CartItem → CartDb → Result CartDb
unfolding find_product update_item
write_quantity quantity item db = elim (find_product item.product db.products) [
  | none ↦ err database
  | some p ↦
      check_quantity quantity (available_quantity p)
      >> ok (record db {
        items =
            update_item item.id (λ i. record i { quantity = quantity; price_snapshot = p.price })
              db.items;
      })
]

-- The cart of the who, and its line, for `updateItemQuantity` and `removeItem`.
unfoldable pub resolve : ℕ → Identity → CartDb → Result CartItem
unfolding find_cart resolve_cart_item
resolve key who db = elim (find_cart who db.carts) [
  | none ↦ err not_found
  | some cart ↦ resolve_cart_item cart.id key db
]

-- A quantity of zero removes the line.
unfoldable pub update_item_quantity : ℕ → Option ℤ → Identity → CartDb → Result (Unit {0}) × CartDb
unfolding resolve write_quantity delete_item
update_item_quantity key none who db = (err bad_request, db)
update_item_quantity key (some (negsuc n)) who db = (err bad_request, db)
update_item_quantity key (some (pos quantity)) who db = answer db (
    resolve key who db >>= λ item.
    if quantity == 0
    then ok (record db { items = delete_item item.id db.items })
    else write_quantity quantity item db)

unfoldable pub remove_item : ℕ → Identity → CartDb → Result (Unit {0}) × CartDb
unfolding resolve delete_item
remove_item key who db =
    answer db
      (resolve key who db >>= λ item. ok (record db { items = delete_item item.id db.items }))

-- `cartItem.deleteMany({ where: { cartId } })`
unfoldable pub delete_lines : ℕ → List CartItem → List CartItem
delete_lines cart = filter_by λ i. not (i.cart == cart)

unfoldable pub clear_cart : Identity → CartDb → Result (Unit {0}) × CartDb
unfolding ensure_cart find_cart delete_lines
clear_cart who db =
    let ensured = ensure_cart who db in
    if is_anonymous who then (err bad_request, db) else elim (find_cart who ensured.carts) [
      | none ↦ (err database, ensured)
      | some cart ↦ (ok tt, record ensured { items = delete_lines cart.id ensured.items })
    ]
