-- ===== src/Cart/Tests.antt =====
-- A customer's cart and a guest's, and the theorems on them.
use vedhicfoods.Prelude.{List, ℕ, ◌+◌, ◌≡◌, refl, true, false, none, some, [], ◌∷◌, arith, All}
use vedhicfoods.Prelude.Int.{pos}
use vedhicfoods.Result.{Result, ok}
use vedhicfoods.Cart.Store.{
  available_quantity, CatalogProduct, Cart, CartItem, CartDb, Identity, find_cart, find_product,
  find_item, find_line, delete_item,
}
use vedhicfoods.Cart.View.{available_of, validate_cart}
use vedhicfoods.Cart.Service.{add_item, ensure_cart, update_item_quantity, remove_item, find_by}
use vedhicfoods.Cart.Lines.{line_quantity}
use vedhicfoods.Cart.Isolation.{
  IsKeyed, IsOwned, IsCart, IsOwn, OnlyCart, update_item_quantity-OnlyCart, remove_item-anonymous,
}
use vedhicfoods.Cart.Merge.{merge_guest_cart}
use vedhicfoods.Cart.Caps.{IsCappedDb}
use vedhicfoods.Cart.Calls.{CartCall, cart_calls, cart_calls-IsCappedDb}
use vedhicfoods.Cart.MergedLines.{merged_quantity}
use vedhicfoods.Cart.Merging.{merge_guest_cart-quantity}

abbrev product : ℕ → ℕ → ℕ → CatalogProduct
product id stock price = record {
  base = record { id = id; slug = 100 + id; stock = stock; inventory = none };
  price = price;
  mrp = price + 1_000;
  is_active = true;
  is_published = true;
  is_deleted = false;
}

abbrev carts : CartDb
carts = record {
  products =
      product 1 40 25_000 ∷ product 2 0 9_999 ∷ record (product 3 7 500) { is_active = false } ∷ [];
  carts =
      record { id = 10; user = some 50; session_token = none }
      ∷ record { id = 11; user = none; session_token = some 77 }
      ∷ [];
  items =
      record { id = 20; cart = 10; product = 1; quantity = 2; price_snapshot = 24_000 }
      ∷ record { id = 21; cart = 11; product = 1; quantity = 3; price_snapshot = 25_000 }
      ∷ record { id = 22; cart = 11; product = 3; quantity = 1; price_snapshot = 500 }
      ∷ [];
  next_id = 30;
}

abbrev guest : Identity
guest = record { user = none; session_token = some 77 }

abbrev nobody : Identity
nobody = record { user = none; session_token = none }

abbrev added : Result (Unit {0}) × CartDb
added = add_item 101 (some (pos 5)) guest carts

carts-IsKeyed : IsKeyed carts.items
unfolding find_by find_item
carts-IsKeyed test i e = ground arith

abbrev updated : Result (Unit {0}) × CartDb
updated = update_item_quantity 101 (some (pos 9)) guest carts

update_item_quantity-OnlyCart_example :
    (c : Cart) × IsCart c carts × IsOwn guest c × OnlyCart c.id carts updated.1
unfolding update_item_quantity available_quantity
update_item_quantity-OnlyCart_example =
    update_item_quantity-OnlyCart 101 9 guest carts updated.1 carts-IsKeyed refl refl

-- The guest may not touch the customer's line.
customer_line : (remove_item 20 guest carts).1 ≡ carts
unfolding remove_item
customer_line = refl

abbrev robbed : Result (Unit {0}) × CartDb
robbed = remove_item 101 nobody carts

carts-IsOwned : All IsOwned carts.carts
carts-IsOwned = (λ e. (50, refl), (λ e. cc e, tt))

-- The customer's line is gone.
remove_item-anonymous_example :
    (c : Cart) × IsCart c carts
    × (c.session_token ≡ none)
    × (u : ℕ) × (c.user ≡ some u)
    × (i : CartItem) × (find_item i.id carts.items ≡ some i)
    × (i.cart ≡ c.id)
    × (robbed.1.items ≡ delete_item i.id carts.items)
unfolding remove_item
remove_item-anonymous_example =
    remove_item-anonymous 101 carts robbed.1 carts-IsKeyed carts-IsOwned refl

-- The inactive product makes a stock issue that `validateCart` does not report.
inactive_unreported : (validate_cart 11 carts).1 ≡ []
unfolding validate_cart available_of find_product available_quantity
inactive_unreported = refl

-- Customer 50 signs in on the guest's device.
merge_guest_cart-quantity_example :
    ((merge_guest_cart 50 77 carts).0 ≡ ok tt)
    × (line_quantity 10 1 (merge_guest_cart 50 77 carts).1.items
        ≡ merged_quantity (find_line 10 1 carts.items) (find_line 11 1 carts.items))
    × (line_quantity 11 1 (merge_guest_cart 50 77 carts).1.items ≡ 0)
unfolding find_cart ensure_cart
merge_guest_cart-quantity_example =
    merge_guest_cart-quantity 50 77 1 carts
      (record { id = 11; user = none; session_token = some 77 })
      (record { id = 10; user = some 50; session_token = none }) refl refl (λ e. omega (arith, e))

merged_lines :
    (merge_guest_cart 50 77 carts).1.items
    ≡ record { id = 20; cart = 10; product = 1; quantity = 5; price_snapshot = 24_000 }
      ∷ record { id = 30; cart = 10; product = 3; quantity = 1; price_snapshot = 500 }
      ∷ []
unfolding merge_guest_cart
merged_lines = refl

abbrev uses : List CartCall
uses =
    CartCall.adds 101 (some (pos 30)) guest
    ∷ CartCall.updates 22 (some (pos 4)) guest
    ∷ CartCall.merges 50 77
    ∷ CartCall.removes 103 (record { user = some 50; session_token = none })
    ∷ CartCall.clears guest
    ∷ []

cart_calls-IsCappedDb_example : IsCappedDb (cart_calls uses carts)
cart_calls-IsCappedDb_example =
    cart_calls-IsCappedDb uses carts
      ((omega arith, omega arith), ((omega arith, omega arith), ((omega arith, omega arith), tt)))
