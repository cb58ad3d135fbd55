-- ===== src/Cart/View.antt =====
-- backend/src/services/cart.service.ts: `formatCartWithInventory` and the findings of `validateCart`.
-- The roundings of the source are to whole paise, and every amount but the tax is whole already.
use vedhicfoods.Prelude.{
  ℕ, ◌+◌, ◌-◌, ◌*◌, ◌/◌, Bool, false, ◌&&◌, ◌||◌, not, Option, none, some, List, [], ◌∷◌, map,
  filter_by, any_by, length, ltb, leb, ◌==◌, if◌then◌else◌,
}
use vedhicfoods.Cart.Store.{CatalogProduct, CartItem, CartDb, find_product, available_quantity}

pub record CartItemResponse : Type 0 where
  pub product : ℕ
  pub unit_price : ℕ
  pub mrp : ℕ
  pub quantity : ℕ
  pub line_total : ℕ
  pub line_mrp_total : ℕ
  pub line_savings : ℕ
  pub price_changed : Bool
  pub available : ℕ
  pub is_out_of_stock : Bool
  pub has_insufficient_stock : Bool
  pub is_available : Bool

-- `p?.price`, `p?.mrp || currentPrice` (a Decimal object is truthy, zero too) and the availability,
-- where the product may be missing.
unfoldable pub price_of : Option CatalogProduct → ℕ
price_of none = 0
price_of (some p) = p.price

unfoldable pub mrp_of : Option CatalogProduct → ℕ
mrp_of none = 0
mrp_of (some p) = p.mrp

unfoldable pub available_of : Option CatalogProduct → ℕ
available_of none = 0
available_of (some p) = available_quantity p

unfoldable pub is_on_sale : Option CatalogProduct → Bool
is_on_sale none = false
is_on_sale (some p) = p.is_active && p.is_published && not p.is_deleted

unfoldable pub format_item : List CatalogProduct → CartItem → CartItemResponse
format_item products item =
    let p = find_product item.product products in
    let price = price_of p in
    let available = available_of p in
    let is_out_of_stock = available == 0 in
    let is_insufficient = ltb available item.quantity in
    record {
      product = item.product;
      unit_price = price;
      mrp = mrp_of p;
      quantity = item.quantity;
      line_total = price * item.quantity;
      line_mrp_total = mrp_of p * item.quantity;
      line_savings = (mrp_of p - price) * item.quantity;
      price_changed = not (price == item.price_snapshot);
      available = available;
      is_out_of_stock = is_out_of_stock;
      has_insufficient_stock = is_insufficient;
      is_available = not is_out_of_stock && not is_insufficient && is_on_sale p;
    }

-- A sum over the lines.
unfoldable pub sum_of : (CartItemResponse → ℕ) → List CartItemResponse → ℕ
sum_of amount [] = 0
sum_of amount (i ∷ is) = amount i + sum_of amount is

pub record CartResponse : Type 0 where
  pub cart : ℕ
  pub items : List CartItemResponse
  pub item_count : ℕ
  pub total_units : ℕ
  pub subtotal : ℕ
  pub original_subtotal : ℕ
  pub savings : ℕ
  pub shipping : ℕ
  pub tax : ℕ
  pub total : ℕ
  pub has_stock_issues : Bool

-- Free from 499 rupees on, and for an empty cart; else 49 rupees.
unfoldable pub shipping_fee : ℕ → ℕ → ℕ
shipping_fee count subtotal = if count == 0 || leb 49_900 subtotal then 0 else 4_900

-- 5%, to the nearest paisa, half upwards.
unfoldable pub tax_on : ℕ → ℕ
tax_on subtotal = (subtotal * 5 + 50) / 100

-- The totals of a cart with these lines.
unfoldable pub totals : ℕ → List CartItemResponse → CartResponse
unfolding sum_of shipping_fee tax_on
totals cart items =
    let subtotal = sum_of (λ i. i.line_total) items in
    let shipping = shipping_fee (length items) subtotal in
    record {
      cart = cart;
      items = items;
      item_count = length items;
      total_units = sum_of (λ i. i.quantity) items;
      subtotal = subtotal;
      original_subtotal = sum_of (λ i. i.line_mrp_total) items;
      savings = sum_of (λ i. i.line_savings) items;
      shipping = shipping;
      tax = tax_on subtotal;
      total = subtotal + shipping + tax_on subtotal;
      has_stock_issues = any_by (λ i. not i.is_available) items;
    }

-- `formatCartWithInventory`
unfoldable pub format_cart_with_inventory : ℕ → CartDb → CartResponse
unfolding totals format_item
format_cart_with_inventory cart db =
    totals cart (map (format_item db.products) (filter_by (λ i. i.cart == cart) db.items))

pub data StockIssue : Type 0 where
  out_of_stock insufficient : ℕ → StockIssue

-- The loop of `validateCart`.
unfoldable pub issues_of : List CartItemResponse → List StockIssue
issues_of [] = []
issues_of (i ∷ is) =
    let rest = issues_of is in
    if i.is_out_of_stock
    then out_of_stock i.product ∷ rest
    else if i.has_insufficient_stock
    then insufficient i.product ∷ rest
    else rest

-- `validateCart`, on the cart that it reads: `isValid` and the issues.
unfoldable pub validate_cart : ℕ → CartDb → Bool × List StockIssue
unfolding format_cart_with_inventory issues_of
validate_cart cart db =
    let issues = issues_of (format_cart_with_inventory cart db).items in
    (length issues == 0, issues)
