-- ===== src/Discounts/Tests.antt =====
-- A coupon for ghee with a cap, a cart, and the theorems on coupons there.
use vedhicfoods.Prelude.{ℕ, ◌≡◌, refl, true, false, none, some, List, [], ◌∷◌, arith, All}
use vedhicfoods.Result.{Result, ok, err, bad_request}
use vedhicfoods.Discounts.Coupon.{
  Coupon, CouponDb, CouponUsage, DiscountType, DiscountableItem, discount_amount, is_eligible,
  enrich, subtotal_from,
}
use vedhicfoods.Discounts.Service.{
  Evaluation, evaluate, evaluate_if_in_force, has_started, is_unexpired, is_under_user_limit,
  update_coupon_row, find_by_code, find_coupon, validate_and_calculate_coupon, record_coupon_usage,
  total_usages, usage_count, exceeds_whole, ends_before_start, UpdateCouponInput,
}
use vedhicfoods.Discounts.Amounts.{IsInForce, IsSummed, IsFair, validate-IsFair}
use vedhicfoods.Discounts.Limits.{IsLimited, record_all, record_all-IsLimited}
use vedhicfoods.Discounts.Editing.{IsWellFormed, CouponCall, call_all, call_all-IsWellFormed}

-- A third off, up to 50 rupees, on category 9 from 100 rupees on.
abbrev ghee_third : Coupon
ghee_third = record {
  id = 1;
  code = 500;
  discount_type = DiscountType.percentage;
  discount_value = 3_333;
  min_order_value = 10_000;
  max_discount = some 5_000;
  max_uses = 2;
  used_count = 0;
  per_user_limit = 1;
  starts_at = some 100;
  expires_at = some 200;
  is_active = true;
  products = [];
  categories = 9 ∷ [];
}

abbrev coupons : CouponDb
coupons = record {
  coupons = ghee_third ∷ [];
  usages = [];
  product_categories = (7, 9) ∷ (8, 4) ∷ [];
}

-- Two jars of ghee, whose category is read from its product, and one of honey.
abbrev cart : List DiscountableItem
cart =
    record { product = 7; category = none; price = 6_001; quantity = 2 }
    ∷ record { product = 8; category = none; price = 2_500; quantity = 1 }
    ∷ []

abbrev shown : Result Evaluation → Evaluation
shown (ok e) = e
shown (err x) = record {
  coupon = 0;
  discount_amount = 0;
  subtotal = 0;
  eligible_subtotal = 0;
  eligible_products = [];
}

abbrev evaluated : Result Evaluation
evaluated = validate_and_calculate_coupon 150 500 cart (some 3) coupons

-- A third of 120.02 rupees is 40.0026… rupees at 33.33%, which rounds to 40.00.
evaluated_amount :
    evaluated
    ≡ ok (record {
      coupon = 1;
      discount_amount = 4_000;
      subtotal = 14_502;
      eligible_subtotal = 12_002;
      eligible_products = 7 ∷ [];
    })
unfolding validate_and_calculate_coupon find_by_code evaluate_if_in_force has_started is_unexpired
    is_under_user_limit evaluate is_eligible enrich subtotal_from discount_amount
evaluated_amount = refl

evaluated_too_late : validate_and_calculate_coupon 201 500 cart (some 3) coupons ≡ err bad_request
unfolding validate_and_calculate_coupon find_by_code evaluate_if_in_force has_started is_unexpired
evaluated_too_late = refl

validate-IsFair_example :
    (c : Coupon) × (find_by_code 500 coupons.coupons ≡ some c)
    × IsInForce 150 (some 3) coupons c
    × IsSummed c coupons.product_categories cart (shown evaluated)
    × IsFair c (shown evaluated)
unfolding validate_and_calculate_coupon find_by_code evaluate_if_in_force has_started is_unexpired
    is_under_user_limit evaluate is_eligible enrich subtotal_from discount_amount
validate-IsFair_example = validate-IsFair 150 500 cart (some 3) coupons (shown evaluated) refl

abbrev use_by : ℕ → CouponUsage
use_by user = record { coupon = 1; user = user; order = 77; discount_applied = 4_000 }

-- Customer 3 tries twice, and customer 5 comes when both uses are taken.
uses_in_turn :
    (record_all (use_by 3 ∷ use_by 3 ∷ use_by 4 ∷ use_by 5 ∷ []) coupons).usages
    ≡ use_by 4 ∷ use_by 3 ∷ []
unfolding record_all record_coupon_usage find_coupon usage_count update_coupon_row
uses_in_turn = refl

coupons-IsLimited : IsLimited coupons
unfolding find_coupon total_usages usage_count
coupons-IsLimited id c e = record {
  counted = ground arith;
  not_over = ground arith;
  user_not_over = λ user. ground arith;
}

record_all-IsLimited_example : IsLimited (record_all (use_by 3 ∷ use_by 3 ∷ use_by 4 ∷ []) coupons)
record_all-IsLimited_example =
    record_all-IsLimited (use_by 3 ∷ use_by 3 ∷ use_by 4 ∷ []) coupons coupons-IsLimited

abbrev no_change : UpdateCouponInput
no_change = record {
  discount_type = none;
  discount_value = none;
  min_order_value = none;
  max_discount = none;
  max_uses = none;
  per_user_limit = none;
  starts_at = none;
  expires_at = none;
  is_active = none;
  product_ids = none;
  category_ids = none;
}

abbrev edits : List CouponCall
edits =
    CouponCall.updates 1 (record no_change { discount_value = some 20_000 })
    ∷ CouponCall.updates 1 (record no_change { expires_at = some (some 50) })
    ∷ CouponCall.toggles 1 false
    ∷ []

call_all-IsWellFormed_example : All IsWellFormed (call_all edits coupons).coupons
unfolding exceeds_whole ends_before_start
call_all-IsWellFormed_example = call_all-IsWellFormed edits coupons ((refl, refl), tt)

abbrev used_once : CouponDb
used_once = record coupons { usages = use_by 3 ∷ [] }
