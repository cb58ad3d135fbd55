-- ===== src/Checkout/Pricing.antt =====
-- backend/src/services/checkout.service.ts: the price of an order, from the product table alone.
-- Amounts are whole paise. A sum of prices times quantities is rounded to whole paise by the source at
-- every step and is whole already; the tax and the total, which go through fractions of a paisa, are
-- computed with the binary numbers of the source.
use vedhicfoods.Prelude.{
  ℕ, ◌+◌, ◌-◌, ◌*◌, Bool, ◌&&◌, not, Option, none, some, List, [], ◌∷◌, map, ltb, leb, ◌==◌,
  if◌then◌else◌,
}
use vedhicfoods.Prelude.Double.{nearest, add, minus, times, round, hundredths}
use vedhicfoods.Prelude.Int.{pos_part}
use vedhicfoods.Result.{Result, ok, err, bad_request, not_found, require, ◌>>=◌, ◌>>◌}
use vedhicfoods.Inventory.State.{ReservationItem}
use vedhicfoods.Discounts.Coupon.{DiscountableItem}
use vedhicfoods.Discounts.Service.{Evaluation, validate_and_calculate_coupon, or_throw}
use vedhicfoods.Cart.Store.{CatalogProduct, available_quantity}
use vedhicfoods.Checkout.Shop.{Shop, OrderLine, catalog}

-- The first product that is not deleted and passes the test.
unfoldable pub find_undeleted :
    (CatalogProduct → Bool) → List CatalogProduct → Option CatalogProduct
find_undeleted test [] = none
find_undeleted test (p ∷ ps) = if test p && not p.is_deleted then some p else find_undeleted test ps

-- `productById.get(requested) ?? productBySlug.get(requested)`
unfoldable pub find_requested : ℕ → List CatalogProduct → Option CatalogProduct
find_requested key ps = elim (find_undeleted (λ p. p.base.id == key) ps) [
  | some p ↦ some p
  | none ↦ find_undeleted (λ p. p.base.slug == key) ps
]

-- The line of a product for sale: its price is the catalogue's.
unfoldable pub line_of : Option ℕ → ℕ → CatalogProduct → OrderLine
line_of category quantity p = record {
  product = p.base.id;
  category = category;
  price = p.price;
  quantity = quantity;
  subtotal = p.price * quantity;
  savings = (p.mrp - p.price) * quantity;
}

-- The body of the pricing loop; `parseInt` of an integer is that integer.
unfoldable pub price_item : Shop → ReservationItem → Result OrderLine
price_item s item = do
  require (ltb 0 (pos_part item.quantity)) bad_request
  p ← or_throw (find_requested item.product (catalog s)) (err not_found)
  require (p.is_active && p.is_published) bad_request
  require (ltb 0 (available_quantity p)) bad_request
  require (leb (pos_part item.quantity) (available_quantity p)) bad_request
  ok (line_of (s.listings p.base.id).category (pos_part item.quantity) p)

unfoldable pub price_items : Shop → List ReservationItem → Result (List OrderLine)
price_items s [] = ok []
price_items s (item ∷ items) = do
  line ← price_item s item
  lines ← price_items s items
  ok (line ∷ lines)

-- `subtotal` and `totalSavings`
unfoldable pub total_of : (OrderLine → ℕ) → List OrderLine → ℕ
total_of amount [] = 0
total_of amount (l ∷ ls) = amount l + total_of amount ls

unfoldable pub discountable : List OrderLine → List DiscountableItem
discountable = map λ l. record {
  product = l.product;
  category = l.category;
  price = l.price;
  quantity = l.quantity;
}

-- The money of an order.
pub record Quote : Type 0 where
  pub lines : List OrderLine
  pub coupon : Option Evaluation
  pub subtotal : ℕ
  pub savings : ℕ
  pub discount : ℕ
  pub shipping : ℕ
  pub tax : ℕ
  pub total : ℕ

-- Step 7: free delivery from 499 rupees on, else 49 rupees.
unfoldable pub shipping_of : ℕ → ℕ
shipping_of subtotal = if leb 49_900 subtotal then 0 else 4_900

-- Step 8: `Math.round(Math.max(0, subtotal - discount) * 0.05 * 100) / 100`, in paise.
abbrev pub five_percent : ℕ
five_percent = 60_446_290_980_731_462_090_752

unfoldable pub tax_of : ℕ → ℕ → ℕ
tax_of subtotal discount =
    let taxable = minus (hundredths subtotal) (hundredths discount) in
    round (nearest (100 * times taxable five_percent) 1)

-- Step 9: `Math.round((taxableAmount + shipping + tax) * 100) / 100`, in paise.
unfoldable pub total_with : ℕ → ℕ → ℕ → ℕ → ℕ
total_with subtotal discount shipping tax =
    let taxable = minus (hundredths subtotal) (hundredths discount) in
    round (nearest (100 * add (add taxable (hundredths shipping)) (hundredths tax)) 1)

-- Steps 7 to 9.
unfoldable pub charge : List OrderLine → Option Evaluation → Quote
charge lines coupon =
    let subtotal = total_of (λ l. l.subtotal) lines in
    let discount : ℕ = elim coupon [ none ↦ 0 | some e ↦ e.discount_amount ] in
    let shipping = shipping_of subtotal in
    let tax = tax_of subtotal discount in
    record {
      lines = lines;
      coupon = coupon;
      subtotal = subtotal;
      savings = total_of (λ l. l.savings) lines;
      discount = discount;
      shipping = shipping;
      tax = tax;
      total = total_with subtotal discount shipping tax;
    }

-- Step 6: `if (input.couponCode)`
unfoldable pub evaluate_coupon :
    ℕ → Option ℕ → ℕ → List OrderLine → Shop → Result (Option Evaluation)
evaluate_coupon now none user lines s = ok none
evaluate_coupon now (some code) user lines s =
    validate_and_calculate_coupon now code (discountable lines) (some user) s.coupons >>= λ e.
    ok (some e)

-- Steps 5 to 9, on the requested lines.
unfoldable pub quote : ℕ → Option ℕ → ℕ → List ReservationItem → Shop → Result Quote
quote now code user items s = do
  lines ← price_items s items
  coupon ← evaluate_coupon now code user lines s
  ok (charge lines coupon)
