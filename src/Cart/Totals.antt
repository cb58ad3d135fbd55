-- ===== src/Cart/Totals.antt =====
-- What a customer is shown of a cart: the amounts add up, and stock problems are found.
use native.Mathlib.Nat.{mul-le-mul_right, add-mul}
use vedhicfoods.Prelude.{
  ℕ, ◌+◌, ◌-◌, ◌*◌, ◌≤◌, ◌<◌, ◌≡◌, List, [], ◌∷◌, arith, map, filter_by, ◌==◌,
}
use vedhicfoods.Cart.Store.{CartDb, CartItem, CatalogProduct, find_product}
use vedhicfoods.Cart.View.{format_item, format_cart_with_inventory, sum_of, price_of, mrp_of}

-- Line by line, the price and the savings make up for the original price.
sum_of-format_le :
    (products : List CatalogProduct) (is : List CartItem)
    → sum_of (λ i. i.line_mrp_total) (map (format_item products) is)
      ≤ sum_of (λ i. i.line_total) (map (format_item products) is)
        + sum_of (λ i. i.line_savings) (map (format_item products) is)
unfolding sum_of format_item
sum_of-format_le products [] = omega arith
sum_of-format_le products (x ∷ is) = omega (
  arith,
  mrp_le (price_of (find_product x.product products)) (mrp_of (find_product x.product products))
      x.quantity,
  sum_of-format_le products is,
)
  where
    mrp_split : (price mrp : ℕ) → mrp ≤ price + (mrp - price)
    mrp_split price mrp = omega arith

    mrp_le : (price mrp quantity : ℕ) → mrp * quantity ≤ price * quantity + (mrp - price) * quantity
    mrp_le price mrp quantity = omega (
      arith,
      mul-le-mul_right quantity (mrp_split price mrp),
      add-mul price (mrp - price) quantity,
    )

-- The amounts of a cart: the total is the subtotal with shipping and tax, the tax is within half a
-- paisa of 5%, shipping is free or 49 rupees, and the savings make up for the whole difference between
-- the original subtotal and the subtotal.
pub format_cart-totals :
    (cart : ℕ) (db : CartDb)
    → ((format_cart_with_inventory cart db).total
        ≡ (format_cart_with_inventory cart db).subtotal
          + (format_cart_with_inventory cart db).shipping
          + (format_cart_with_inventory cart db).tax)
      × ((format_cart_with_inventory cart db).tax * 100
          ≤ (format_cart_with_inventory cart db).subtotal * 5 + 50)
      × ((format_cart_with_inventory cart db).subtotal * 5
          < (format_cart_with_inventory cart db).tax * 100 + 50)
      × ((format_cart_with_inventory cart db).shipping ≤ 4_900)
      × ((format_cart_with_inventory cart db).original_subtotal
          ≤ (format_cart_with_inventory cart db).subtotal
            + (format_cart_with_inventory cart db).savings)
unfolding format_cart_with_inventory
format_cart-totals cart db =
    ground (arith, sum_of-format_le db.products (filter_by (λ i. i.cart == cart) db.items))
