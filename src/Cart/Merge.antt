-- ===== src/Cart/Merge.antt =====
-- `mergeGuestCart` of backend/src/services/cart.service.ts: a guest's cart becomes part of the
-- customer's at sign-in. The guest's lines and the customer's are read first and written after.
use vedhicfoods.Prelude.{
  ℕ, ◌+◌, suc, not, none, some, List, [], ◌∷◌, ◌++◌, map, min, filter_by, length, Bool, true, false,
  ◌==◌, if◌then◌else◌,
}
use vedhicfoods.Result.{Result, ok, err, database}
use vedhicfoods.Cart.Store.{CartItem, CartDb, Identity, find_cart, find_line}
use vedhicfoods.Cart.Service.{ensure_cart, delete_lines}

-- `existingByProduct.has(item.productId)`
unfoldable pub has_line : ℕ → ℕ → List CartItem → Bool
unfolding find_line
has_line cart product items = elim (find_line cart product items) [ none ↦ false | some i ↦ true ]

-- `createMany`: the lines get new ids in the customer's cart.
unfoldable pub place : ℕ → ℕ → List CartItem → List CartItem
place id cart [] = []
place id cart (i ∷ is) = record i { id = id; cart = cart } ∷ place (suc id) cart is

-- `Math.min(100, existing.quantity + item.quantity)` for a line of the customer's that the guest has.
unfoldable pub bump : ℕ → ℕ → List CartItem → CartItem → CartItem
unfolding find_line
bump cart guest guest_items i =
    if i.cart == cart
    then elim (find_line guest i.product guest_items) [
      | none ↦ i
      | some x ↦ record i { quantity = min 100 (i.quantity + x.quantity) }
    ]
    else i

-- The transaction: new lines, raised lines, and the end of the guest's cart.
unfoldable pub merge_lines : ℕ → ℕ → List CartItem → CartDb → CartDb
unfolding has_line place bump delete_lines
merge_lines cart guest guest_items db =
    let to_create = filter_by (λ i. not (has_line cart i.product db.items)) guest_items in
    record db {
      carts = filter_by (λ c. not (c.id == guest)) db.carts;
      items =
          delete_lines guest
            (map (bump cart guest guest_items) db.items ++ place db.next_id cart to_create);
      next_id = db.next_id + length to_create;
    }

-- `mergeGuestCart`, for a customer and the session of a guest.
unfoldable pub merge_guest_cart : ℕ → ℕ → CartDb → Result (Unit {0}) × CartDb
unfolding merge_lines ensure_cart find_cart
merge_guest_cart user session db =
    let customer : Identity = record { user = some user; session_token = none } in
    let guest : Identity = record { user = none; session_token = some session } in
    let ensured = ensure_cart customer db in
    elim (find_cart guest db.carts) [
      | none ↦ (ok tt, ensured)
      | some g ↦ elim (filter_by (λ i. i.cart == g.id) db.items) [
        | [] ↦ (ok tt, ensured)
        | i ∷ is ↦ elim (find_cart customer ensured.carts) [
          | none ↦ (err database, ensured)
          | some c ↦ (ok tt, merge_lines c.id g.id (i ∷ is) ensured)
        ]
      ]
    ]
