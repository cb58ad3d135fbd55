-- ===== src/Cart/Caps.antt =====
-- How many units a line of a cart may hold, through any use of backend/src/services/cart.service.ts.
use vedhicfoods.Prelude.{
  ℕ, ◌≤◌, ◌<◌, ◌≡◌, refl, suc, Bool, List, [], ◌∷◌, ◌++◌, arith, All, map, filter_by, ◌==◌, ◌&&◌,
  Bool-cases, inl, inr,
}
use vedhicfoods.Result.{Result, ok, err}
use vedhicfoods.Cart.Store.{
  CartDb, CartItem, CatalogProduct, Identity, find_line, upsert_line, update_item, delete_item,
}
use vedhicfoods.Cart.Service.{answer, add_line, new_quantity, ensure_cart, delete_lines}
use vedhicfoods.Cart.Merge.{place, bump, merge_lines}
use vedhicfoods.Cart.Adding.{ensure_cart-items}

-- A line holds between 1 and 100 units.
abbrev pub IsCapped : CartItem → Type 0
IsCapped i = (1 ≤ i.quantity) × (i.quantity ≤ 100)

module _ (P : CartItem → Type 0) where
  All-append : (xs ys : List CartItem) → All P xs → All P ys → All P (xs ++ ys)
  All-append [] ys a b = b
  All-append (x ∷ xs) ys a b = (a.0, All-append xs ys a.1 b)

  pub All-filter_by :
      (test : CartItem → Bool) (xs : List CartItem) → All P xs → All P (filter_by test xs)
  All-filter_by test [] a = tt
  All-filter_by test (x ∷ xs) a = elim (Bool-cases (test x)) [
    | inl kept ↦ rw kept (a.0, All-filter_by test xs a.1)
    | inr dropped ↦ rw dropped (All-filter_by test xs a.1)
  ]

  All-map :
      (f : CartItem → CartItem) (xs : List CartItem)
      → ((x : CartItem) → P x → P (f x))
      → All P xs
      → All P (map f xs)
  All-map f [] h a = tt
  All-map f (x ∷ xs) h a = (h x a.0, All-map f xs h a.1)

  pub All-delete_item : (id : ℕ) (xs : List CartItem) → All P xs → All P (delete_item id xs)
  unfolding delete_item
  All-delete_item id [] a = tt
  All-delete_item id (x ∷ xs) a = elim (Bool-cases (x.id == id)) [
    | inl hit ↦ rw hit a.1
    | inr miss ↦ rw miss (a.0, All-delete_item id xs a.1)
  ]

  pub All-update_item :
      (id : ℕ) (f : CartItem → CartItem) (xs : List CartItem)
      → ((x : CartItem) → P (f x))
      → All P xs
      → All P (update_item id f xs)
  unfolding update_item
  All-update_item id f [] h a = tt
  All-update_item id f (x ∷ xs) h a = elim (Bool-cases (x.id == id)) [
    | inl hit ↦ rw hit (h x, a.1)
    | inr miss ↦ rw miss (a.0, All-update_item id f xs h a.1)
  ]

IsCapped-upsert_line :
    (new : CartItem) (xs : List CartItem)
    → IsCapped new
    → All IsCapped xs
    → All IsCapped (upsert_line new xs)
unfolding upsert_line
IsCapped-upsert_line new [] h a = (h, tt)
IsCapped-upsert_line new (x ∷ xs) h a =
    elim (Bool-cases (x.cart == new.cart && x.product == new.product)) [
      | inl hit ↦ rw hit (h, a.1)
      | inr miss ↦ rw miss (a.0, IsCapped-upsert_line new xs h a.1)
    ]

IsCapped-place :
    (id cart : ℕ) (xs : List CartItem) → All IsCapped xs → All IsCapped (place id cart xs)
unfolding place
IsCapped-place id cart [] a = tt
IsCapped-place id cart (x ∷ xs) a = (a.0, IsCapped-place (suc id) cart xs a.1)

IsCapped-bump :
    (cart guest : ℕ) (guest_items : List CartItem) (x : CartItem)
    → IsCapped x
    → IsCapped (bump cart guest guest_items x)
unfolding bump
IsCapped-bump cart guest guest_items x h = ground arith

-- Every line of every cart.
abbrev pub IsCappedDb : CartDb → Type 0
IsCappedDb db = All IsCapped db.items

pub IsCappedDb-ensure_cart :
    (who : Identity) (db : CartDb) → IsCappedDb db → IsCappedDb (ensure_cart who db)
IsCappedDb-ensure_cart who db a = rw (ensure_cart-items who db) a

pub IsCappedDb-answer :
    (db : CartDb) (r : Result CartDb)
    → IsCappedDb db
    → ((db' : CartDb) → r ≡ ok db' → IsCappedDb db')
    → IsCappedDb (answer db r).1
IsCappedDb-answer db (ok db') a h = h db' refl
IsCappedDb-answer db (err x) a h = a

pub add_line-IsCappedDb :
    (p : CatalogProduct) (qty cart : ℕ) (db db' : CartDb)
    → 0 < qty
    → IsCappedDb db
    → add_line p qty cart db ≡ ok db'
    → IsCappedDb db'
unfolding add_line new_quantity
add_line-IsCappedDb p qty cart db db' positive a e =
    let new : CartItem = record {
      id = db.next_id;
      cart = cart;
      product = p.base.id;
      quantity = new_quantity (find_line cart p.base.id db.items) qty;
      price_snapshot = p.price;
    } in
    let items : db'.items ≡ upsert_line new db.items = ground arith in
    rw items (IsCapped-upsert_line new db.items (ground arith) a)

pub merge_lines-IsCappedDb :
    (cart guest : ℕ) (guest_items : List CartItem) (db : CartDb)
    → All IsCapped guest_items
    → IsCappedDb db
    → IsCappedDb (merge_lines cart guest guest_items db)
unfolding merge_lines delete_lines
merge_lines-IsCappedDb cart guest guest_items db g a = All-filter_by IsCapped _ _ (
    All-append IsCapped _ _
      (All-map IsCapped (bump cart guest guest_items) db.items
        (IsCapped-bump cart guest guest_items) a)
      (IsCapped-place _ cart _ (All-filter_by IsCapped _ guest_items g)))
