-- ===== src/Cart/Checks.antt =====
-- `validateCart` of backend/src/services/cart.service.ts against what the cart shows.
use vedhicfoods.Prelude.{
  ℕ, ◌≤◌, ◌<◌, ◌≡◌, ◌↔◌, refl, true, false, not, List, [], ◌∷◌, arith, All, map, any_by, length,
  ◌==◌,
}
use vedhicfoods.Cart.Store.{CartDb, CartItem, CatalogProduct, find_product}
use vedhicfoods.Cart.Lines.{lines_of}
use vedhicfoods.Cart.View.{
  format_item, format_cart_with_inventory, issues_of, validate_cart, available_of, is_on_sale,
}

-- The line can be had from stock.
abbrev pub InStock : List CatalogProduct → CartItem → Type 0
InStock products i =
    (0 < available_of (find_product i.product products))
    × (i.quantity ≤ available_of (find_product i.product products))

issues_of-none :
    (products : List CatalogProduct) (is : List CartItem)
    → ((length (issues_of (map (format_item products) is)) == 0) ≡ true) ↔ All (InStock products) is
unfolding issues_of format_item
issues_of-none products [] = (λ _. tt, λ _. refl)
issues_of-none products (i ∷ is) = ground (arith, issues_of-none products is)

-- `validateCart` answers that a cart is valid exactly when the stock of every line's product is not
-- empty and covers the line.
pub validate_cart_iff :
    (cart : ℕ) (db : CartDb)
    → ((validate_cart cart db).0 ≡ true) ↔ All (InStock db.products) (lines_of cart db.items)
unfolding validate_cart
validate_cart_iff cart db = issues_of-none db.products (lines_of cart db.items)

issues-sold :
    (products : List CatalogProduct) (is : List CartItem)
    → (any_by (λ i. not i.is_available) (map (format_item products) is) ≡ false) ↔ (
        (length (issues_of (map (format_item products) is)) ≡ 0)
        × All (λ i. is_on_sale (find_product i.product products) ≡ true) is)
unfolding issues_of format_item
issues-sold products [] = (λ _. (refl, tt), λ _. refl)
issues-sold products (i ∷ is) = ground (arith, issues-sold products is)

-- A cart is shown without stock issues exactly when `validateCart` finds it valid and every product
-- in it is active, published and not deleted: `validateCart` does not look at the latter.
pub has_stock_issues_iff :
    (cart : ℕ) (db : CartDb)
    → ((format_cart_with_inventory cart db).has_stock_issues ≡ false) ↔ (
        ((validate_cart cart db).0 ≡ true)
        × All
            (λ i. is_on_sale (find_product i.product db.products) ≡ true)
            (lines_of cart db.items))
unfolding validate_cart
has_stock_issues_iff cart db = ground (arith, issues-sold db.products (lines_of cart db.items))
