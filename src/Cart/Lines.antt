-- ===== src/Cart/Lines.antt =====
-- What the writes of the cart service do to the lines of the carts.
use vedhicfoods.Prelude.{
  ℕ, ◌≡◌, ◌≢◌, refl, some, List, [], ◌∷◌, arith, filter_by, ◌==◌, if◌then◌else◌,
}
use vedhicfoods.Cart.Store.{CartItem, upsert_line, find_item, update_item, delete_item, is_line}

-- The quantity of a product in a cart.
unfoldable pub line_quantity : ℕ → ℕ → List CartItem → ℕ
line_quantity cart product [] = 0
line_quantity cart product (i ∷ is) =
    if is_line cart product i then i.quantity else line_quantity cart product is

pub line_quantity-upsert_line :
    (new : CartItem) (cart product : ℕ) (is : List CartItem)
    → line_quantity cart product (upsert_line new is)
      ≡ (if is_line cart product new then new.quantity else line_quantity cart product is)
unfolding line_quantity upsert_line
line_quantity-upsert_line new cart product [] = refl
line_quantity-upsert_line new cart product (i ∷ is) =
    ground (arith, line_quantity-upsert_line new cart product is)

-- The lines of one cart, in order.
abbrev pub lines_of : ℕ → List CartItem → List CartItem
lines_of cart = filter_by λ i. i.cart == cart

pub lines_of-delete_item :
    (id cart : ℕ) (is : List CartItem) (i : CartItem)
    → find_item id is ≡ some i
    → i.cart ≢ cart
    → lines_of cart (delete_item id is) ≡ lines_of cart is
unfolding find_item delete_item
lines_of-delete_item id cart [] i e h = cc
lines_of-delete_item id cart (x ∷ is) i e h = ground (arith, lines_of-delete_item id cart is i)

pub lines_of-update_item :
    (id cart quantity price : ℕ) (is : List CartItem) (i : CartItem)
    → find_item id is ≡ some i
    → i.cart ≢ cart
    → lines_of cart
        (update_item id (λ x. record x { quantity = quantity; price_snapshot = price }) is)
      ≡ lines_of cart is
unfolding find_item update_item
lines_of-update_item id cart quantity price [] i e h = cc
lines_of-update_item id cart quantity price (x ∷ is) i e h =
    ground (arith, lines_of-update_item id cart quantity price is i)
