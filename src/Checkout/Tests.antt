-- ===== src/Checkout/Tests.antt =====
-- A shop with two products, checkouts in it, and the theorems on them.
use vedhicfoods.Cart.Service.{ensure_cart, new_cart}
use vedhicfoods.Cart.Store.{find_cart, available_quantity, is_cart_of}
use vedhicfoods.Inventory.Rows.{write_row, compute_status, confirm_row, reserve_row}
use vedhicfoods.Discounts.Service.{
  find_coupon, is_under_user_limit, is_unexpired, usage_count, has_started, update_coupon_row,
  validate_and_calculate_coupon, find_by_code, record_coupon_usage, evaluate, evaluate_if_in_force,
}
use vedhicfoods.Checkout.Pricing.{
  price_item, discountable, evaluate_coupon, quote, find_undeleted, charge, price_items, total_of,
  find_requested, line_of, tax_of, total_with, shipping_of,
}
use vedhicfoods.Inventory.Service.{
  for_items, sort_items, reserve_item, confirm_deduction, move_row, reserve_stock, insert_item,
  audited, credit_item, save, move_item, record_log, get_or_create,
}
use vedhicfoods.Prelude.{
  ◌≡◌, refl, true, false, none, some, [], ◌∷◌, ◌⊎◌, ◌==◌, if◌then◌else◌, arith,
}
use vedhicfoods.Prelude.Double.{nearest, half_even, spacing}
use vedhicfoods.Prelude.Int.{pos}
use vedhicfoods.Result.{Result, ok, err}
use vedhicfoods.Inventory.State.{with_product, InventoryStatus}
use vedhicfoods.Inventory.Moves.{Moves, keys, demand}
use vedhicfoods.Discounts.Coupon.{
  raw_discount, discount_amount, lookup, is_eligible, enrich, subtotal_from, DiscountType,
}
use vedhicfoods.Checkout.Shop.{
  find_by_key, listed, catalog, cart_tables, Shop, Sale, Snapshot, PaymentMethod, PaymentStatus,
  reservations,
}
use vedhicfoods.Orders.Status.{OrderStatus}
use vedhicfoods.Checkout.Service.{
  clear_bought, complete_order, place_order, buy, create_order, confirm_if_cod, probe, raw_items,
  resolve_buyer, is_taken, use_coupon, assert_online_payment_allowed, new_sale, resolve_address,
  active_customer, resolve_collision, CheckoutInput, CheckoutAnswer, process_checkout, open_cart,
}
use vedhicfoods.Checkout.Stock.{Takes, process_checkout-Takes}
use vedhicfoods.Checkout.Money.{IsCharged, process_checkout-IsCharged}
use vedhicfoods.Checkout.Replay.{process_checkout-process_checkout}
use vedhicfoods.Checkout.Rollback.{is_new, IsUntouched, process_checkout-IsUntouched}

abbrev pub home : Snapshot
home = record {
  full_name = "Asha";
  phone = "9000000000";
  line1 = "1 Temple Road";
  line2 = none;
  landmark = none;
  city = "Pune";
  state = "MH";
  pincode = "411001";
  country = "India";
}

-- Honey at 300 rupees, and ghee at 550, of which other orders hold four.
abbrev pub shop : Shop
shop = record {
  db = record {
    products =
        record { id = 1; slug = 101; stock = 20; inventory = none }
        ∷ record {
          id = 2;
          slug = 102;
          stock = 5;
          inventory = some (record {
            available = 5;
            reserved = 4;
            sold = 0;
            threshold = 2;
            status = InventoryStatus.in_stock;
          });
        }
        ∷ [];
    logs = [];
    audits = [];
    catalog_cached = true;
  };
  listings = λ id. record {
    price = if id == 1 then 30_000 else 55_000;
    mrp = if id == 1 then 35_000 else 55_000;
    category = none;
    is_active = true;
    is_published = true;
    is_deleted = false;
  };
  carts = record { id = 10; user = some 50; session_token = none } ∷ [];
  cart_items =
      record { id = 20; cart = 10; product = 1; quantity = 2; price_snapshot = 30_000 } ∷ [];
  next_id = 700;
  customers = λ id.
      if id == 50 then some (record { email = 5; is_active = true; is_deleted = false }) else none;
  addresses = λ id. none;
  coupons = record {
    coupons =
        record {
          id = 9;
          code = 99;
          discount_type = DiscountType.percentage;
          discount_value = 1_000;
          min_order_value = 0;
          max_discount = none;
          max_uses = 5;
          used_count = 0;
          per_user_limit = 1;
          starts_at = none;
          expires_at = none;
          is_active = true;
          products = [];
          categories = [];
        }
        ∷ [];
    usages = [];
    product_categories = [];
  };
  config = record { online_enabled = true; enabled_methods = PaymentMethod.razorpay ∷ [] };
  sales = [];
  payments = [];
  delivery_history = [];
  events = [];
}

-- Cash on delivery, for the cart, with the coupon.
abbrev pub from_cart : CheckoutInput
from_cart = record {
  address_id = none;
  address = some home;
  payment_method = PaymentMethod.cod;
  coupon_code = some 99;
  items = [];
  idempotency_key = some 4_242;
}

abbrev pub online : CheckoutInput
online = record from_cart {
  payment_method = PaymentMethod.razorpay;
  coupon_code = none;
  items = record { product = 102; quantity = pos 2 } ∷ [];
}

-- Six jars of ghee are more than there are.
abbrev greedy : CheckoutInput
greedy = record online { items = record { product = 2; quantity = pos 6 } ∷ [] }

-- Nobody else writes.
abbrev pub alone : Shop → Shop
alone s = s

abbrev pub unused : Sale
unused = record {
  base = record {
    id = 0;
    number = 0;
    user = 0;
    email = 0;
    status = OrderStatus.pending;
    items = [];
    delivery = none;
    created_at = 0;
  };
  idempotency_key = none;
  address = none;
  snapshot = home;
  lines = [];
  subtotal = 0;
  savings = 0;
  shipping = 0;
  tax = 0;
  discount = 0;
  total = 0;
  payment_status = PaymentStatus.pending;
  payment_method = PaymentMethod.cod;
  coupon_code = none;
}

abbrev pub sale_of : Result CheckoutAnswer → Sale
sale_of (ok a) = a.sale
sale_of (err e) = unused

abbrev pub placed : CheckoutInput → Result CheckoutAnswer × Shop
placed input = process_checkout alone 1_000 801 50 input none shop

pub placed-from_cart :
    process_checkout alone 1_000 801 50 from_cart none shop
    ≡ (ok (record { sale = sale_of (placed from_cart).0; is_replay = false }), (placed from_cart).1)
unfolding active_customer assert_online_payment_allowed audited available_quantity buy cart_tables
    catalog charge clear_bought complete_order compute_status confirm_deduction confirm_if_cod
    confirm_row create_order credit_item discount_amount discountable enrich ensure_cart evaluate
    evaluate_coupon evaluate_if_in_force find_by_code find_by_key find_cart find_coupon
    find_requested find_undeleted for_items get_or_create has_started insert_item is_cart_of
    is_eligible is_taken is_under_user_limit is_unexpired line_of listed lookup move_item move_row
    new_cart new_sale open_cart place_order price_item price_items probe process_checkout quote
    raw_discount raw_items record_coupon_usage record_log reservations reserve_item reserve_row
    reserve_stock resolve_address resolve_buyer resolve_collision save sort_items subtotal_from
    total_of update_coupon_row usage_count use_coupon validate_and_calculate_coupon with_product
    write_row
placed-from_cart = refl

refused_greedy : is_new (placed greedy).0 ≡ false
unfolding active_customer assert_online_payment_allowed audited available_quantity buy cart_tables
    catalog charge clear_bought complete_order compute_status confirm_deduction confirm_if_cod
    confirm_row create_order credit_item discount_amount discountable enrich ensure_cart evaluate
    evaluate_coupon evaluate_if_in_force find_by_code find_by_key find_cart find_coupon
    find_requested find_undeleted for_items get_or_create has_started insert_item is_cart_of
    is_eligible is_taken is_under_user_limit is_unexpired line_of listed lookup move_item move_row
    new_cart new_sale open_cart place_order price_item price_items probe process_checkout quote
    raw_discount raw_items record_coupon_usage record_log reservations reserve_item reserve_row
    reserve_stock resolve_address resolve_buyer resolve_collision save sort_items subtotal_from
    total_of update_coupon_row usage_count use_coupon validate_and_calculate_coupon with_product
    write_row
refused_greedy = refl

abbrev cart_sale : Sale
cart_sale = sale_of (placed from_cart).0

-- 600 rupees less 10%, with 27 rupees of tax and free delivery.
cart_total : (sale_of (placed from_cart).0).total ≡ 56_700
unfolding active_customer assert_online_payment_allowed audited available_quantity buy cart_tables
    catalog charge clear_bought complete_order compute_status confirm_deduction confirm_if_cod
    confirm_row create_order credit_item discount_amount discountable enrich ensure_cart evaluate
    evaluate_coupon evaluate_if_in_force find_by_code find_by_key find_cart find_coupon
    find_requested find_undeleted for_items get_or_create half_even has_started insert_item
    is_cart_of is_eligible is_taken is_under_user_limit is_unexpired line_of listed lookup move_item
    move_row nearest new_cart new_sale open_cart place_order price_item price_items probe
    process_checkout quote raw_discount raw_items record_coupon_usage record_log reservations
    reserve_item reserve_row reserve_stock resolve_address resolve_buyer resolve_collision save
    shipping_of sort_items spacing subtotal_from tax_of total_of total_with update_coupon_row
    usage_count use_coupon validate_and_calculate_coupon with_product write_row
cart_total = refl

cart_subtotal : (sale_of (placed from_cart).0).subtotal ≡ 60_000
unfolding active_customer assert_online_payment_allowed audited available_quantity buy cart_tables
    catalog charge clear_bought complete_order compute_status confirm_deduction confirm_if_cod
    confirm_row create_order credit_item discount_amount discountable enrich ensure_cart evaluate
    evaluate_coupon evaluate_if_in_force find_by_code find_by_key find_cart find_coupon
    find_requested find_undeleted for_items get_or_create half_even has_started insert_item
    is_cart_of is_eligible is_taken is_under_user_limit is_unexpired line_of listed lookup move_item
    move_row nearest new_cart new_sale open_cart place_order price_item price_items probe
    process_checkout quote raw_discount raw_items record_coupon_usage record_log reservations
    reserve_item reserve_row reserve_stock resolve_address resolve_buyer resolve_collision save
    shipping_of sort_items spacing subtotal_from tax_of total_of total_with update_coupon_row
    usage_count use_coupon validate_and_calculate_coupon with_product write_row
cart_subtotal = refl

-- The source charges 1.03 and 4.01 rupees of tax on 20.70 and 80.30 rupees, though 5% are 1.035 and
-- 4.015.
taxes_below_half : (tax_of 2_070 0 ≡ 103) × (tax_of 8_030 0 ≡ 401)
unfolding active_customer assert_online_payment_allowed audited available_quantity buy cart_tables
    catalog charge clear_bought complete_order compute_status confirm_deduction confirm_if_cod
    confirm_row create_order credit_item discount_amount discountable enrich ensure_cart evaluate
    evaluate_coupon evaluate_if_in_force find_by_code find_by_key find_cart find_coupon
    find_requested find_undeleted for_items get_or_create half_even has_started insert_item
    is_cart_of is_eligible is_taken is_under_user_limit is_unexpired line_of listed lookup move_item
    move_row nearest new_cart new_sale open_cart place_order price_item price_items probe
    process_checkout quote raw_discount raw_items record_coupon_usage record_log reservations
    reserve_item reserve_row reserve_stock resolve_address resolve_buyer resolve_collision save
    shipping_of sort_items spacing subtotal_from tax_of total_of total_with update_coupon_row
    usage_count use_coupon validate_and_calculate_coupon with_product write_row
taxes_below_half = (refl, refl)

cart_is_cleared : (placed from_cart).1.cart_items ≡ []
unfolding active_customer assert_online_payment_allowed audited available_quantity buy cart_tables
    catalog charge clear_bought complete_order compute_status confirm_deduction confirm_if_cod
    confirm_row create_order credit_item discount_amount discountable enrich ensure_cart evaluate
    evaluate_coupon evaluate_if_in_force find_by_code find_by_key find_cart find_coupon
    find_requested find_undeleted for_items get_or_create has_started insert_item is_cart_of
    is_eligible is_taken is_under_user_limit is_unexpired line_of listed lookup move_item move_row
    new_cart new_sale open_cart place_order price_item price_items probe process_checkout quote
    raw_discount raw_items record_coupon_usage record_log reservations reserve_item reserve_row
    reserve_stock resolve_address resolve_buyer resolve_collision save sort_items subtotal_from
    total_of update_coupon_row usage_count use_coupon validate_and_calculate_coupon with_product
    write_row
cart_is_cleared = refl

process_checkout-Takes_example :
    Moves
      (Takes PaymentMethod.cod)
      (λ i.
        demand
          (keys (open_cart from_cart 50 shop).db.products)
          i
          (reservations (sale_of (placed from_cart).0).lines))
      (open_cart from_cart 50 shop).db.products
      (placed from_cart).1.db.products
process_checkout-Takes_example =
    process_checkout-Takes alone 1_000 801 50 from_cart none shop (placed from_cart).1
      (sale_of (placed from_cart).0) placed-from_cart

process_checkout-IsCharged_example :
    IsCharged
      (open_cart from_cart 50 shop)
      cart_sale.lines
      cart_sale.subtotal
      cart_sale.discount
      cart_sale.shipping
      cart_sale.tax
      cart_sale.total
process_checkout-IsCharged_example =
    process_checkout-IsCharged alone 1_000 801 50 from_cart none shop (placed from_cart).1
      (sale_of (placed from_cart).0) placed-from_cart (omega (arith, cart_subtotal))

process_checkout-process_checkout_example :
    process_checkout alone 2_000 802 50
      (record online { idempotency_key = none })
      (some 4_242)
      (placed from_cart).1
    ≡ (ok (record { sale = sale_of (placed from_cart).0; is_replay = true }), (placed from_cart).1)
process_checkout-process_checkout_example =
    process_checkout-process_checkout alone alone 1_000 2_000 801 802 50 4_242 from_cart
      (record online { idempotency_key = none }) none (some 4_242) shop (placed from_cart).1
      (sale_of (placed from_cart).0) refl refl placed-from_cart

process_checkout-IsUntouched_example :
    IsUntouched shop (placed greedy).1 ⊎ IsUntouched (open_cart greedy 50 shop) (placed greedy).1
process_checkout-IsUntouched_example =
    process_checkout-IsUntouched alone 1_000 801 50 greedy none shop (placed greedy).1
      (placed greedy).0 refused_greedy refl
