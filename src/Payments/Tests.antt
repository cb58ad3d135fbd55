-- ===== src/Payments/Tests.antt =====
-- The payment of an online order of the shop, its failures, a cash-on-delivery order and refunds.
use vedhicfoods.Orders.Handlers.{status_code}
use vedhicfoods.Prelude.Double.{nearest, half_even, spacing}
use vedhicfoods.Checkout.Rounding.{max_paise}
use vedhicfoods.Cart.Service.{ensure_cart, new_cart}
use vedhicfoods.Checkout.Pricing.{
  find_requested, total_of, line_of, shipping_of, tax_of, total_with, discountable, charge,
  price_item, price_items, quote, evaluate_coupon, find_undeleted,
}
use vedhicfoods.Discounts.Coupon.{
  raw_discount, is_eligible, lookup, enrich, subtotal_from, discount_amount,
}
use vedhicfoods.Cart.Store.{is_cart_of, find_cart, available_quantity}
use vedhicfoods.Inventory.Rows.{reserve_row, write_row, compute_status, release_row, confirm_row}
use vedhicfoods.Discounts.Service.{
  evaluate_if_in_force, is_unexpired, validate_and_calculate_coupon, evaluate, update_coupon_row,
  has_started, find_coupon, find_by_code, usage_count, record_coupon_usage, is_under_user_limit,
}
use vedhicfoods.Inventory.Service.{
  audited, move_row, insert_item, reserve_stock, get_or_create, save, move_item, for_items,
  credit_item, sort_items, confirm_deduction, release_reservation, reserve_item, record_log,
}
use vedhicfoods.Prelude.{
  ℕ, Bool, ◌<◌, ◌≡◌, ◌≢◌, refl, true, false, none, some, Option, ◌==◌, if◌then◌else◌, get_elem?, ap,
  ◌≤◌, arith,
}
use vedhicfoods.Result.{ok, err, bad_request}
use vedhicfoods.Inventory.State.{with_product}
use vedhicfoods.Inventory.Moves.{At, keys, demand}
use vedhicfoods.Inventory.RoundTrip.{Sells}
use vedhicfoods.Orders.Status.{OrderStatus}
use vedhicfoods.Orders.Store.{reservation_items}
use vedhicfoods.Checkout.Shop.{
  listed, find_by_key, catalog, update_sale, cart_tables, Shop, Sale, Payment, PaymentMethod,
  PaymentStatus, PaymentRecordStatus, find_sale, reservations,
}
use vedhicfoods.Checkout.Service.{
  use_coupon, assert_online_payment_allowed, place_order, resolve_buyer, confirm_if_cod,
  create_order, new_sale, resolve_collision, complete_order, buy, active_customer, raw_items,
  is_taken, clear_bought, probe, resolve_address, process_checkout, open_cart,
}
use vedhicfoods.Checkout.Tests.{shop, online, from_cart, alone, placed, sale_of, placed-from_cart}
use vedhicfoods.Payments.Gateway.{
  assert_gateway_payment_matches_record, noted, capture_gate, update_payment, Gateway,
  GatewayStatus, find_payment, find_by_razorpay, is_captured,
}
use vedhicfoods.Payments.Confirming.{
  confirm_payment, settle_order, deduct, open_payment, waiting_order, check_initiation, Outcome,
  set_payment, confirm_in_transaction, initiate_payment, verify_and_confirm_payment,
}
use vedhicfoods.Payments.Webhook.{
  fail_in_transaction, release_lines, with_payment, CapturedWebhookEntity, is_paid,
  handle_payment_failed, handle_payment_captured,
}
use vedhicfoods.Payments.Refunds.{check_refund, paise_of, Refund, refund_payment}
use vedhicfoods.Payments.Failing.{fail_uncaptured, commit_failure}
use vedhicfoods.Payments.Capturing.{by_signature, by_webhook, capture, capture-capture}
use vedhicfoods.Payments.Genuine.{IsGenuine, verify_and_confirm_payment-IsGenuine}
use vedhicfoods.Payments.Releasing.{
  ReleasesTwice, handle_payment_failed-handle_payment_failed, handle_payment_captured-strands,
}
use vedhicfoods.Payments.Refunded.{refund_payment-IsRefundable, refund_payment-refund_payment}
use vedhicfoods.Payments.AfterCheckout.{
  SellsAndReleases, process_checkout-confirm, process_checkout-fail,
}

-- Two jars of ghee, 1100 rupees and 5% tax, are ordered online.
abbrev sale : Sale
sale = sale_of (placed online).0

abbrev ordered : Shop
ordered = (placed online).1

-- A gateway that gives its orders the id 5000, signs with 777, and has captured payment 6000.
abbrev gateway : Gateway
gateway = record {
  is_signed = λ order payment signature. signature == 777;
  fetch = λ payment.
      if payment == 6_000
      then some (record {
        amount = 115_500;
        currency = "INR";
        order = some 5_000;
        status = GatewayStatus.captured;
      })
      else none;
  create = λ amount. some 5_000;
  refund = λ payment amount. some (some 8_000);
}

abbrev initiated : Shop
initiated = (initiate_payment gateway 700 50 ordered).1

abbrev verified : Shop
verified = (verify_and_confirm_payment alone gateway 5_000 6_000 777 50 initiated).1

is_verified :
    verify_and_confirm_payment alone gateway 5_000 6_000 777 50 initiated
    ≡ (ok Outcome.confirmed, verified)
unfolding active_customer assert_gateway_payment_matches_record assert_online_payment_allowed
    audited available_quantity buy capture_gate cart_tables catalog charge check_initiation
    check_refund clear_bought commit_failure complete_order compute_status confirm_deduction
    confirm_if_cod confirm_in_transaction confirm_payment confirm_row create_order credit_item
    deduct discount_amount discountable enrich ensure_cart evaluate evaluate_coupon
    evaluate_if_in_force fail_in_transaction fail_uncaptured find_by_code find_by_key
    find_by_razorpay find_cart find_coupon find_payment find_requested find_sale find_undeleted
    for_items get_or_create half_even handle_payment_failed has_started initiate_payment insert_item
    is_cart_of is_eligible is_taken is_under_user_limit is_unexpired line_of listed lookup move_item
    move_row nearest new_cart new_sale noted open_cart open_payment paise_of place_order price_item
    price_items probe process_checkout quote raw_discount raw_items record_coupon_usage record_log
    refund_payment release_lines release_reservation release_row reservation_items reservations
    reserve_item reserve_row reserve_stock resolve_address resolve_buyer resolve_collision save
    settle_order shipping_of sort_items spacing status_code subtotal_from tax_of total_of total_with
    update_coupon_row update_payment update_sale usage_count use_coupon
    validate_and_calculate_coupon verify_and_confirm_payment waiting_order with_payment with_product
    write_row
is_verified = refl

verify_and_confirm_payment-IsGenuine_example :
    (genuine : Sale) × IsGenuine gateway 5_000 6_000 777 50 initiated genuine
    × (confirm_in_transaction genuine 6_000 initiated ≡ (ok Outcome.confirmed, verified))
verify_and_confirm_payment-IsGenuine_example =
    verify_and_confirm_payment-IsGenuine alone gateway 5_000 6_000 777 50 initiated verified
      is_verified

abbrev holds_captured : Option Payment → Bool
holds_captured none = false
holds_captured (some p) = is_captured p

-- The webhook of the same payment comes after the signature.
capture_changes : capture by_signature sale 6_000 initiated ≢ initiated
unfolding active_customer assert_gateway_payment_matches_record assert_online_payment_allowed
    audited available_quantity buy capture_gate cart_tables catalog charge check_initiation
    check_refund clear_bought commit_failure complete_order compute_status confirm_deduction
    confirm_if_cod confirm_in_transaction confirm_payment confirm_row create_order credit_item
    deduct discount_amount discountable enrich ensure_cart evaluate evaluate_coupon
    evaluate_if_in_force fail_in_transaction fail_uncaptured find_by_code find_by_key
    find_by_razorpay find_cart find_coupon find_payment find_requested find_sale find_undeleted
    for_items get_or_create half_even handle_payment_failed has_started initiate_payment insert_item
    is_cart_of is_eligible is_taken is_under_user_limit is_unexpired line_of listed lookup move_item
    move_row nearest new_cart new_sale noted open_cart open_payment paise_of place_order price_item
    price_items probe process_checkout quote raw_discount raw_items record_coupon_usage record_log
    refund_payment release_lines release_reservation release_row reservation_items reservations
    reserve_item reserve_row reserve_stock resolve_address resolve_buyer resolve_collision save
    settle_order shipping_of sort_items spacing status_code subtotal_from tax_of total_of total_with
    update_coupon_row update_payment update_sale usage_count use_coupon
    validate_and_calculate_coupon verify_and_confirm_payment waiting_order with_payment with_product
    write_row
capture_changes = λ e.
    let flag : true ≡ false = ap (λ (t : Shop). holds_captured (find_payment 700 t.payments)) e in
    cc flag

capture-capture_example :
    capture by_webhook sale 6_000 (capture by_signature sale 6_000 initiated)
    ≡ capture by_signature sale 6_000 initiated
capture-capture_example =
    capture-capture by_signature by_webhook sale sale 6_000 6_000 initiated
      (capture by_signature sale 6_000 initiated) refl capture_changes refl

placed_online :
    process_checkout alone 1_000 801 50 online none shop
    ≡ (ok (record { sale = sale; is_replay = false }), ordered)
unfolding active_customer assert_gateway_payment_matches_record assert_online_payment_allowed
    audited available_quantity buy capture_gate cart_tables catalog charge check_initiation
    check_refund clear_bought commit_failure complete_order compute_status confirm_deduction
    confirm_if_cod confirm_in_transaction confirm_payment confirm_row create_order credit_item
    deduct discount_amount discountable enrich ensure_cart evaluate evaluate_coupon
    evaluate_if_in_force fail_in_transaction fail_uncaptured find_by_code find_by_key
    find_by_razorpay find_cart find_coupon find_payment find_requested find_sale find_undeleted
    for_items get_or_create half_even handle_payment_failed has_started initiate_payment insert_item
    is_cart_of is_eligible is_taken is_under_user_limit is_unexpired line_of listed lookup move_item
    move_row nearest new_cart new_sale noted open_cart open_payment paise_of place_order price_item
    price_items probe process_checkout quote raw_discount raw_items record_coupon_usage record_log
    refund_payment release_lines release_reservation release_row reservation_items reservations
    reserve_item reserve_row reserve_stock resolve_address resolve_buyer resolve_collision save
    settle_order shipping_of sort_items spacing status_code subtotal_from tax_of total_of total_with
    update_coupon_row update_payment update_sale usage_count use_coupon
    validate_and_calculate_coupon verify_and_confirm_payment waiting_order with_payment with_product
    write_row
placed_online = refl

found_online : find_sale sale.base.id initiated.sales ≡ some sale
unfolding active_customer assert_gateway_payment_matches_record assert_online_payment_allowed
    audited available_quantity buy capture_gate cart_tables catalog charge check_initiation
    check_refund clear_bought commit_failure complete_order compute_status confirm_deduction
    confirm_if_cod confirm_in_transaction confirm_payment confirm_row create_order credit_item
    deduct discount_amount discountable enrich ensure_cart evaluate evaluate_coupon
    evaluate_if_in_force fail_in_transaction fail_uncaptured find_by_code find_by_key
    find_by_razorpay find_cart find_coupon find_payment find_requested find_sale find_undeleted
    for_items get_or_create half_even handle_payment_failed has_started initiate_payment insert_item
    is_cart_of is_eligible is_taken is_under_user_limit is_unexpired line_of listed lookup move_item
    move_row nearest new_cart new_sale noted open_cart open_payment paise_of place_order price_item
    price_items probe process_checkout quote raw_discount raw_items record_coupon_usage record_log
    refund_payment release_lines release_reservation release_row reservation_items reservations
    reserve_item reserve_row reserve_stock resolve_address resolve_buyer resolve_collision save
    settle_order shipping_of sort_items spacing status_code subtotal_from tax_of total_of total_with
    update_coupon_row update_payment update_sale usage_count use_coupon
    validate_and_calculate_coupon verify_and_confirm_payment waiting_order with_payment with_product
    write_row
found_online = refl

confirmed_online : confirm_in_transaction sale 6_000 initiated ≡ (ok Outcome.confirmed, verified)
unfolding active_customer assert_gateway_payment_matches_record assert_online_payment_allowed
    audited available_quantity buy capture_gate cart_tables catalog charge check_initiation
    check_refund clear_bought commit_failure complete_order compute_status confirm_deduction
    confirm_if_cod confirm_in_transaction confirm_payment confirm_row create_order credit_item
    deduct discount_amount discountable enrich ensure_cart evaluate evaluate_coupon
    evaluate_if_in_force fail_in_transaction fail_uncaptured find_by_code find_by_key
    find_by_razorpay find_cart find_coupon find_payment find_requested find_sale find_undeleted
    for_items get_or_create half_even handle_payment_failed has_started initiate_payment insert_item
    is_cart_of is_eligible is_taken is_under_user_limit is_unexpired line_of listed lookup move_item
    move_row nearest new_cart new_sale noted open_cart open_payment paise_of place_order price_item
    price_items probe process_checkout quote raw_discount raw_items record_coupon_usage record_log
    refund_payment release_lines release_reservation release_row reservation_items reservations
    reserve_item reserve_row reserve_stock resolve_address resolve_buyer resolve_collision save
    settle_order shipping_of sort_items spacing status_code subtotal_from tax_of total_of total_with
    update_coupon_row update_payment update_sale usage_count use_coupon
    validate_and_calculate_coupon verify_and_confirm_payment waiting_order with_payment with_product
    write_row
confirmed_online = refl

same_stock : initiated.db.products ≡ ordered.db.products
unfolding active_customer assert_gateway_payment_matches_record assert_online_payment_allowed
    audited available_quantity buy capture_gate cart_tables catalog charge check_initiation
    check_refund clear_bought commit_failure complete_order compute_status confirm_deduction
    confirm_if_cod confirm_in_transaction confirm_payment confirm_row create_order credit_item
    deduct discount_amount discountable enrich ensure_cart evaluate evaluate_coupon
    evaluate_if_in_force fail_in_transaction fail_uncaptured find_by_code find_by_key
    find_by_razorpay find_cart find_coupon find_payment find_requested find_sale find_undeleted
    for_items get_or_create half_even handle_payment_failed has_started initiate_payment insert_item
    is_cart_of is_eligible is_taken is_under_user_limit is_unexpired line_of listed lookup move_item
    move_row nearest new_cart new_sale noted open_cart open_payment paise_of place_order price_item
    price_items probe process_checkout quote raw_discount raw_items record_coupon_usage record_log
    refund_payment release_lines release_reservation release_row reservation_items reservations
    reserve_item reserve_row reserve_stock resolve_address resolve_buyer resolve_collision save
    settle_order shipping_of sort_items spacing status_code subtotal_from tax_of total_of total_with
    update_coupon_row update_payment update_sale usage_count use_coupon
    validate_and_calculate_coupon verify_and_confirm_payment waiting_order with_payment with_product
    write_row
same_stock = refl

process_checkout-confirm_example :
    At Sells
      (demand (keys (open_cart online 50 shop).db.products) 1 (reservations sale.lines))
      (get_elem? (open_cart online 50 shop).db.products 1)
      (get_elem? verified.db.products 1)
process_checkout-confirm_example =
    process_checkout-confirm alone 1_000 801 50 6_000 online none shop ordered initiated verified
      sale sale refl placed_online same_stock found_online confirmed_online 1

-- Two attempts fail: the second release takes the ghee that other orders hold.
abbrev failed : Shop
failed = (handle_payment_failed alone 5_000 initiated).1

abbrev failed_again : Shop
failed_again = (handle_payment_failed alone 5_000 failed).1

abbrev waiting : Payment
waiting = record {
  order = 700;
  razorpay_order = some 5_000;
  razorpay_payment = none;
  amount = 115_500;
  currency = "INR";
  status = PaymentRecordStatus.pending;
  method = PaymentMethod.razorpay;
}

found_waiting : find_by_razorpay 5_000 initiated.payments ≡ some waiting
unfolding active_customer assert_gateway_payment_matches_record assert_online_payment_allowed
    audited available_quantity buy capture_gate cart_tables catalog charge check_initiation
    check_refund clear_bought commit_failure complete_order compute_status confirm_deduction
    confirm_if_cod confirm_in_transaction confirm_payment confirm_row create_order credit_item
    deduct discount_amount discountable enrich ensure_cart evaluate evaluate_coupon
    evaluate_if_in_force fail_in_transaction fail_uncaptured find_by_code find_by_key
    find_by_razorpay find_cart find_coupon find_payment find_requested find_sale find_undeleted
    for_items get_or_create half_even handle_payment_failed has_started initiate_payment insert_item
    is_cart_of is_eligible is_taken is_under_user_limit is_unexpired line_of listed lookup move_item
    move_row nearest new_cart new_sale noted open_cart open_payment paise_of place_order price_item
    price_items probe process_checkout quote raw_discount raw_items record_coupon_usage record_log
    refund_payment release_lines release_reservation release_row reservation_items reservations
    reserve_item reserve_row reserve_stock resolve_address resolve_buyer resolve_collision save
    settle_order shipping_of sort_items spacing status_code subtotal_from tax_of total_of total_with
    update_coupon_row update_payment update_sale usage_count use_coupon
    validate_and_calculate_coupon verify_and_confirm_payment waiting_order with_payment with_product
    write_row
found_waiting = refl

found_row : find_sale 700 initiated.sales ≡ some sale
unfolding active_customer assert_gateway_payment_matches_record assert_online_payment_allowed
    audited available_quantity buy capture_gate cart_tables catalog charge check_initiation
    check_refund clear_bought commit_failure complete_order compute_status confirm_deduction
    confirm_if_cod confirm_in_transaction confirm_payment confirm_row create_order credit_item
    deduct discount_amount discountable enrich ensure_cart evaluate evaluate_coupon
    evaluate_if_in_force fail_in_transaction fail_uncaptured find_by_code find_by_key
    find_by_razorpay find_cart find_coupon find_payment find_requested find_sale find_undeleted
    for_items get_or_create half_even handle_payment_failed has_started initiate_payment insert_item
    is_cart_of is_eligible is_taken is_under_user_limit is_unexpired line_of listed lookup move_item
    move_row nearest new_cart new_sale noted open_cart open_payment paise_of place_order price_item
    price_items probe process_checkout quote raw_discount raw_items record_coupon_usage record_log
    refund_payment release_lines release_reservation release_row reservation_items reservations
    reserve_item reserve_row reserve_stock resolve_address resolve_buyer resolve_collision save
    settle_order shipping_of sort_items spacing status_code subtotal_from tax_of total_of total_with
    update_coupon_row update_payment update_sale usage_count use_coupon
    validate_and_calculate_coupon verify_and_confirm_payment waiting_order with_payment with_product
    write_row
found_row = refl

sale_is_unpaid : is_paid sale ≡ false
unfolding active_customer assert_gateway_payment_matches_record assert_online_payment_allowed
    audited available_quantity buy capture_gate cart_tables catalog charge check_initiation
    check_refund clear_bought commit_failure complete_order compute_status confirm_deduction
    confirm_if_cod confirm_in_transaction confirm_payment confirm_row create_order credit_item
    deduct discount_amount discountable enrich ensure_cart evaluate evaluate_coupon
    evaluate_if_in_force fail_in_transaction fail_uncaptured find_by_code find_by_key
    find_by_razorpay find_cart find_coupon find_payment find_requested find_sale find_undeleted
    for_items get_or_create half_even handle_payment_failed has_started initiate_payment insert_item
    is_cart_of is_eligible is_taken is_under_user_limit is_unexpired line_of listed lookup move_item
    move_row nearest new_cart new_sale noted open_cart open_payment paise_of place_order price_item
    price_items probe process_checkout quote raw_discount raw_items record_coupon_usage record_log
    refund_payment release_lines release_reservation release_row reservation_items reservations
    reserve_item reserve_row reserve_stock resolve_address resolve_buyer resolve_collision save
    settle_order shipping_of sort_items spacing status_code subtotal_from tax_of total_of total_with
    update_coupon_row update_payment update_sale usage_count use_coupon
    validate_and_calculate_coupon verify_and_confirm_payment waiting_order with_payment with_product
    write_row
sale_is_unpaid = refl

first_failure : handle_payment_failed alone 5_000 initiated ≡ (ok tt, failed)
unfolding active_customer assert_gateway_payment_matches_record assert_online_payment_allowed
    audited available_quantity buy capture_gate cart_tables catalog charge check_initiation
    check_refund clear_bought commit_failure complete_order compute_status confirm_deduction
    confirm_if_cod confirm_in_transaction confirm_payment confirm_row create_order credit_item
    deduct discount_amount discountable enrich ensure_cart evaluate evaluate_coupon
    evaluate_if_in_force fail_in_transaction fail_uncaptured find_by_code find_by_key
    find_by_razorpay find_cart find_coupon find_payment find_requested find_sale find_undeleted
    for_items get_or_create half_even handle_payment_failed has_started initiate_payment insert_item
    is_cart_of is_eligible is_taken is_under_user_limit is_unexpired line_of listed lookup move_item
    move_row nearest new_cart new_sale noted open_cart open_payment paise_of place_order price_item
    price_items probe process_checkout quote raw_discount raw_items record_coupon_usage record_log
    refund_payment release_lines release_reservation release_row reservation_items reservations
    reserve_item reserve_row reserve_stock resolve_address resolve_buyer resolve_collision save
    settle_order shipping_of sort_items spacing status_code subtotal_from tax_of total_of total_with
    update_coupon_row update_payment update_sale usage_count use_coupon
    validate_and_calculate_coupon verify_and_confirm_payment waiting_order with_payment with_product
    write_row
first_failure = refl

second_failure : handle_payment_failed alone 5_000 failed ≡ (ok tt, failed_again)
unfolding active_customer assert_gateway_payment_matches_record assert_online_payment_allowed
    audited available_quantity buy capture_gate cart_tables catalog charge check_initiation
    check_refund clear_bought commit_failure complete_order compute_status confirm_deduction
    confirm_if_cod confirm_in_transaction confirm_payment confirm_row create_order credit_item
    deduct discount_amount discountable enrich ensure_cart evaluate evaluate_coupon
    evaluate_if_in_force fail_in_transaction fail_uncaptured find_by_code find_by_key
    find_by_razorpay find_cart find_coupon find_payment find_requested find_sale find_undeleted
    for_items get_or_create half_even handle_payment_failed has_started initiate_payment insert_item
    is_cart_of is_eligible is_taken is_under_user_limit is_unexpired line_of listed lookup move_item
    move_row nearest new_cart new_sale noted open_cart open_payment paise_of place_order price_item
    price_items probe process_checkout quote raw_discount raw_items record_coupon_usage record_log
    refund_payment release_lines release_reservation release_row reservation_items reservations
    reserve_item reserve_row reserve_stock resolve_address resolve_buyer resolve_collision save
    settle_order shipping_of sort_items spacing status_code subtotal_from tax_of total_of total_with
    update_coupon_row update_payment update_sale usage_count use_coupon
    validate_and_calculate_coupon verify_and_confirm_payment waiting_order with_payment with_product
    write_row
second_failure = refl

handle_payment_failed-handle_payment_failed_example :
    At ReleasesTwice
      (demand (keys initiated.db.products) 1 (reservation_items sale.base.items))
      (get_elem? initiated.db.products 1)
      (get_elem? failed_again.db.products 1)
handle_payment_failed-handle_payment_failed_example =
    handle_payment_failed-handle_payment_failed 5_000 waiting sale initiated failed failed_again
      found_waiting found_row refl sale_is_unpaid first_failure second_failure 1

-- The third attempt succeeds.
abbrev entity : CapturedWebhookEntity
entity = record { id = 6_000; order = 5_000; amount = 115_500; currency = "INR" }

abbrev failed_payment : Payment
failed_payment = record waiting { status = PaymentRecordStatus.failed }

abbrev failed_sale : Sale
failed_sale = set_payment OrderStatus.payment_failed PaymentStatus.failed sale

found_failed : find_by_razorpay 5_000 failed.payments ≡ some failed_payment
unfolding active_customer assert_gateway_payment_matches_record assert_online_payment_allowed
    audited available_quantity buy capture_gate cart_tables catalog charge check_initiation
    check_refund clear_bought commit_failure complete_order compute_status confirm_deduction
    confirm_if_cod confirm_in_transaction confirm_payment confirm_row create_order credit_item
    deduct discount_amount discountable enrich ensure_cart evaluate evaluate_coupon
    evaluate_if_in_force fail_in_transaction fail_uncaptured find_by_code find_by_key
    find_by_razorpay find_cart find_coupon find_payment find_requested find_sale find_undeleted
    for_items get_or_create half_even handle_payment_failed has_started initiate_payment insert_item
    is_cart_of is_eligible is_taken is_under_user_limit is_unexpired line_of listed lookup move_item
    move_row nearest new_cart new_sale noted open_cart open_payment paise_of place_order price_item
    price_items probe process_checkout quote raw_discount raw_items record_coupon_usage record_log
    refund_payment release_lines release_reservation release_row reservation_items reservations
    reserve_item reserve_row reserve_stock resolve_address resolve_buyer resolve_collision save
    settle_order shipping_of sort_items spacing status_code subtotal_from tax_of total_of total_with
    update_coupon_row update_payment update_sale usage_count use_coupon
    validate_and_calculate_coupon verify_and_confirm_payment waiting_order with_payment with_product
    write_row
found_failed = refl

found_failed_row : find_sale 700 failed.sales ≡ some failed_sale
unfolding active_customer assert_gateway_payment_matches_record assert_online_payment_allowed
    audited available_quantity buy capture_gate cart_tables catalog charge check_initiation
    check_refund clear_bought commit_failure complete_order compute_status confirm_deduction
    confirm_if_cod confirm_in_transaction confirm_payment confirm_row create_order credit_item
    deduct discount_amount discountable enrich ensure_cart evaluate evaluate_coupon
    evaluate_if_in_force fail_in_transaction fail_uncaptured find_by_code find_by_key
    find_by_razorpay find_cart find_coupon find_payment find_requested find_sale find_undeleted
    for_items get_or_create half_even handle_payment_failed has_started initiate_payment insert_item
    is_cart_of is_eligible is_taken is_under_user_limit is_unexpired line_of listed lookup move_item
    move_row nearest new_cart new_sale noted open_cart open_payment paise_of place_order price_item
    price_items probe process_checkout quote raw_discount raw_items record_coupon_usage record_log
    refund_payment release_lines release_reservation release_row reservation_items reservations
    reserve_item reserve_row reserve_stock resolve_address resolve_buyer resolve_collision save
    settle_order shipping_of sort_items spacing status_code subtotal_from tax_of total_of total_with
    update_coupon_row update_payment update_sale usage_count use_coupon
    validate_and_calculate_coupon verify_and_confirm_payment waiting_order with_payment with_product
    write_row
found_failed_row = refl

failed_id : find_payment failed_sale.base.id failed.payments ≡ some failed_payment
unfolding active_customer assert_gateway_payment_matches_record assert_online_payment_allowed
    audited available_quantity buy capture_gate cart_tables catalog charge check_initiation
    check_refund clear_bought commit_failure complete_order compute_status confirm_deduction
    confirm_if_cod confirm_in_transaction confirm_payment confirm_row create_order credit_item
    deduct discount_amount discountable enrich ensure_cart evaluate evaluate_coupon
    evaluate_if_in_force fail_in_transaction fail_uncaptured find_by_code find_by_key
    find_by_razorpay find_cart find_coupon find_payment find_requested find_sale find_undeleted
    for_items get_or_create half_even handle_payment_failed has_started initiate_payment insert_item
    is_cart_of is_eligible is_taken is_under_user_limit is_unexpired line_of listed lookup move_item
    move_row nearest new_cart new_sale noted open_cart open_payment paise_of place_order price_item
    price_items probe process_checkout quote raw_discount raw_items record_coupon_usage record_log
    refund_payment release_lines release_reservation release_row reservation_items reservations
    reserve_item reserve_row reserve_stock resolve_address resolve_buyer resolve_collision save
    settle_order shipping_of sort_items spacing status_code subtotal_from tax_of total_of total_with
    update_coupon_row update_payment update_sale usage_count use_coupon
    validate_and_calculate_coupon verify_and_confirm_payment waiting_order with_payment with_product
    write_row
failed_id = refl

handle_payment_captured-strands_example :
    (s' : Shop) × (handle_payment_captured (λ x. x) entity failed ≡ (ok tt, s'))
    × ((q : Payment) × (find_payment failed_sale.base.id s'.payments ≡ some q)
        × (is_captured q ≡ true))
    × (s'.sales ≡ failed.sales)
    × (s'.db.products ≡ failed.db.products)
handle_payment_captured-strands_example =
    handle_payment_captured-strands entity failed_payment failed_sale failed found_failed
      found_failed_row failed_id refl refl refl

-- The cash-on-delivery order is marked failed by its owner.
abbrev cash_sale : Sale
cash_sale = sale_of (placed from_cart).0

abbrev cash_failed : Shop
cash_failed = (commit_failure cash_sale (placed from_cart).1).1

found_cash : find_sale cash_sale.base.id (placed from_cart).1.sales ≡ some cash_sale
unfolding active_customer assert_gateway_payment_matches_record assert_online_payment_allowed
    audited available_quantity buy capture_gate cart_tables catalog charge check_initiation
    check_refund clear_bought commit_failure complete_order compute_status confirm_deduction
    confirm_if_cod confirm_in_transaction confirm_payment confirm_row create_order credit_item
    deduct discount_amount discountable enrich ensure_cart evaluate evaluate_coupon
    evaluate_if_in_force fail_in_transaction fail_uncaptured find_by_code find_by_key
    find_by_razorpay find_cart find_coupon find_payment find_requested find_sale find_undeleted
    for_items get_or_create half_even handle_payment_failed has_started initiate_payment insert_item
    is_cart_of is_eligible is_taken is_under_user_limit is_unexpired line_of listed lookup move_item
    move_row nearest new_cart new_sale noted open_cart open_payment paise_of place_order price_item
    price_items probe process_checkout quote raw_discount raw_items record_coupon_usage record_log
    refund_payment release_lines release_reservation release_row reservation_items reservations
    reserve_item reserve_row reserve_stock resolve_address resolve_buyer resolve_collision save
    settle_order shipping_of sort_items spacing status_code subtotal_from tax_of total_of total_with
    update_coupon_row update_payment update_sale usage_count use_coupon
    validate_and_calculate_coupon verify_and_confirm_payment waiting_order with_payment with_product
    write_row
found_cash = refl

failed_cash : commit_failure cash_sale (placed from_cart).1 ≡ (200, cash_failed)
unfolding active_customer assert_gateway_payment_matches_record assert_online_payment_allowed
    audited available_quantity buy capture_gate cart_tables catalog charge check_initiation
    check_refund clear_bought commit_failure complete_order compute_status confirm_deduction
    confirm_if_cod confirm_in_transaction confirm_payment confirm_row create_order credit_item
    deduct discount_amount discountable enrich ensure_cart evaluate evaluate_coupon
    evaluate_if_in_force fail_in_transaction fail_uncaptured find_by_code find_by_key
    find_by_razorpay find_cart find_coupon find_payment find_requested find_sale find_undeleted
    for_items get_or_create half_even handle_payment_failed has_started initiate_payment insert_item
    is_cart_of is_eligible is_taken is_under_user_limit is_unexpired line_of listed lookup move_item
    move_row nearest new_cart new_sale noted open_cart open_payment paise_of place_order price_item
    price_items probe process_checkout quote raw_discount raw_items record_coupon_usage record_log
    refund_payment release_lines release_reservation release_row reservation_items reservations
    reserve_item reserve_row reserve_stock resolve_address resolve_buyer resolve_collision save
    settle_order shipping_of sort_items spacing status_code subtotal_from tax_of total_of total_with
    update_coupon_row update_payment update_sale usage_count use_coupon
    validate_and_calculate_coupon verify_and_confirm_payment waiting_order with_payment with_product
    write_row
failed_cash = refl

process_checkout-fail_example :
    At SellsAndReleases
      (demand (keys (open_cart from_cart 50 shop).db.products) 0 (reservations cash_sale.lines))
      (get_elem? (open_cart from_cart 50 shop).db.products 0)
      (get_elem? cash_failed.db.products 0)
process_checkout-fail_example =
    process_checkout-fail alone 1_000 801 50 from_cart none shop (placed from_cart).1
      (placed from_cart).1 cash_failed cash_sale cash_sale refl placed-from_cart refl found_cash
      failed_cash 0

-- 500 rupees are refunded.
abbrev five_hundred : ℕ
five_hundred = 604_462_909_807_314_587_353_088_000

abbrev refunded : Shop
refunded = (refund_payment alone gateway 700 (some five_hundred) verified).1

abbrev refund : Refund
refund = record { order = 700; refund = some 8_000; amount = five_hundred }

abbrev captured_payment : Payment
captured_payment = record waiting {
  status = PaymentRecordStatus.captured;
  razorpay_payment = some 6_000;
}

is_refunded : refund_payment alone gateway 700 (some five_hundred) verified ≡ (ok refund, refunded)
unfolding active_customer assert_gateway_payment_matches_record assert_online_payment_allowed
    audited available_quantity buy capture_gate cart_tables catalog charge check_initiation
    check_refund clear_bought commit_failure complete_order compute_status confirm_deduction
    confirm_if_cod confirm_in_transaction confirm_payment confirm_row create_order credit_item
    deduct discount_amount discountable enrich ensure_cart evaluate evaluate_coupon
    evaluate_if_in_force fail_in_transaction fail_uncaptured find_by_code find_by_key
    find_by_razorpay find_cart find_coupon find_payment find_requested find_sale find_undeleted
    for_items get_or_create half_even handle_payment_failed has_started initiate_payment insert_item
    is_cart_of is_eligible is_taken is_under_user_limit is_unexpired line_of listed lookup move_item
    move_row nearest new_cart new_sale noted open_cart open_payment paise_of place_order price_item
    price_items probe process_checkout quote raw_discount raw_items record_coupon_usage record_log
    refund_payment release_lines release_reservation release_row reservation_items reservations
    reserve_item reserve_row reserve_stock resolve_address resolve_buyer resolve_collision save
    settle_order shipping_of sort_items spacing status_code subtotal_from tax_of total_of total_with
    update_coupon_row update_payment update_sale usage_count use_coupon
    validate_and_calculate_coupon verify_and_confirm_payment waiting_order with_payment with_product
    write_row
is_refunded = refl

found_captured : find_payment 700 verified.payments ≡ some captured_payment
unfolding active_customer assert_gateway_payment_matches_record assert_online_payment_allowed
    audited available_quantity buy capture_gate cart_tables catalog charge check_initiation
    check_refund clear_bought commit_failure complete_order compute_status confirm_deduction
    confirm_if_cod confirm_in_transaction confirm_payment confirm_row create_order credit_item
    deduct discount_amount discountable enrich ensure_cart evaluate evaluate_coupon
    evaluate_if_in_force fail_in_transaction fail_uncaptured find_by_code find_by_key
    find_by_razorpay find_cart find_coupon find_payment find_requested find_sale find_undeleted
    for_items get_or_create half_even handle_payment_failed has_started initiate_payment insert_item
    is_cart_of is_eligible is_taken is_under_user_limit is_unexpired line_of listed lookup move_item
    move_row nearest new_cart new_sale noted open_cart open_payment paise_of place_order price_item
    price_items probe process_checkout quote raw_discount raw_items record_coupon_usage record_log
    refund_payment release_lines release_reservation release_row reservation_items reservations
    reserve_item reserve_row reserve_stock resolve_address resolve_buyer resolve_collision save
    settle_order shipping_of sort_items spacing status_code subtotal_from tax_of total_of total_with
    update_coupon_row update_payment update_sale usage_count use_coupon
    validate_and_calculate_coupon verify_and_confirm_payment waiting_order with_payment with_product
    write_row
found_captured = refl

captured_small : captured_payment.amount < max_paise
captured_small = omega arith

refund_payment-IsRefundable_example :
    (payment : ℕ) × (captured_payment.status ≡ PaymentRecordStatus.captured)
    × (captured_payment.razorpay_payment ≡ some payment)
    × (0 < refund.amount)
    × (paise_of refund.amount ≤ captured_payment.amount)
    × (gateway.refund payment (paise_of refund.amount) ≡ some refund.refund)
refund_payment-IsRefundable_example =
    refund_payment-IsRefundable alone gateway 700 (some five_hundred) verified refunded refund
      captured_payment found_captured captured_small is_refunded

refund_payment-refund_payment_example :
    (paise_of refund.amount ≡ captured_payment.amount
      → refund_payment alone gateway 700 none refunded ≡ (err bad_request, refunded))
    × (paise_of refund.amount < captured_payment.amount
        → find_payment 700 refunded.payments ≡ some captured_payment)
refund_payment-refund_payment_example =
    refund_payment-refund_payment gateway gateway alone 700 (some five_hundred) none verified
      refunded refund captured_payment is_refunded found_captured captured_small
