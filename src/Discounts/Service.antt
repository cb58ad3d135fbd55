-- ===== src/Discounts/Service.antt =====
-- backend/src/services/discount.service.ts: evaluation, recorded use, and the administrator's
-- changes of coupons. The code of a coupon is the one that `trim().toUpperCase()` leaves.
use vedhicfoods.Prelude.{
  ℕ, ◌+◌, Bool, true, false, ◌&&◌, not, Option, none, some, List, [], ◌∷◌, map, filter_by, length,
  ltb, leb, ◌==◌, if◌then◌else◌,
}
use vedhicfoods.Result.{Result, ok, err, bad_request, not_found, conflict, require, ◌>>=◌, ◌>>◌}
use vedhicfoods.Discounts.Coupon.{
  Coupon, CouponDb, CouponUsage, DiscountType, percentage, fixed_amount, DiscountableItem, enrich,
  subtotal_from, is_eligible, discount_amount,
}

unfoldable pub find_by_code : ℕ → List Coupon → Option Coupon
find_by_code code [] = none
find_by_code code (c ∷ cs) = if c.code == code then some c else find_by_code code cs

unfoldable pub find_coupon : ℕ → List Coupon → Option Coupon
find_coupon id [] = none
find_coupon id (c ∷ cs) = if c.id == id then some c else find_coupon id cs

unfoldable pub update_coupon_row : ℕ → (Coupon → Coupon) → List Coupon → List Coupon
update_coupon_row id change [] = []
update_coupon_row id change (c ∷ cs) =
    if c.id == id then change c ∷ cs else c ∷ update_coupon_row id change cs

abbrev pub or_throw {ℓ} : {A : Type ℓ} → Option A → Result A → Result A
or_throw none e = e
or_throw (some a) e = ok a

-- `couponUsage.count({ where: { couponId, userId } })`
unfoldable pub usage_count : ℕ → ℕ → List CouponUsage → ℕ
usage_count coupon user [] = 0
usage_count coupon user (u ∷ us) =
    (if u.coupon == coupon && u.user == user then 1 else 0) + usage_count coupon user us

-- `coupon.startsAt && coupon.startsAt > now`, `coupon.expiresAt && coupon.expiresAt < now`
unfoldable pub has_started : Coupon → ℕ → Bool
has_started c now = elim c.starts_at [ none ↦ true | some t ↦ leb t now ]

unfoldable pub is_unexpired : Coupon → ℕ → Bool
is_unexpired c now = elim c.expires_at [ none ↦ true | some t ↦ leb now t ]

unfoldable pub is_under_user_limit : Coupon → Option ℕ → List CouponUsage → Bool
unfolding usage_count
is_under_user_limit c none usages = true
is_under_user_limit c (some user) usages = ltb (usage_count c.id user usages) c.per_user_limit

-- `CouponEvaluationResult`
pub record Evaluation : Type 0 where
  pub coupon : ℕ
  pub discount_amount : ℕ
  pub subtotal : ℕ
  pub eligible_subtotal : ℕ
  pub eligible_products : List ℕ

-- The evaluation of a coupon that is in force, on the items of a cart.
unfoldable pub evaluate : Coupon → List DiscountableItem → List (ℕ × ℕ) → Result Evaluation
evaluate c items categories = do
  let enriched = map (enrich categories) items
  let total = subtotal_from 0 enriched
  let eligible_items = filter_by (is_eligible c) enriched
  let eligible = subtotal_from 0 eligible_items
  require (ltb 0 (length eligible_items)) bad_request
  require (leb c.min_order_value eligible) bad_request
  ok (record {
    coupon = c.id;
    discount_amount = discount_amount c eligible total;
    subtotal = total;
    eligible_subtotal = eligible;
    eligible_products = map (λ (i : DiscountableItem). i.product) eligible_items;
  })

-- The tests of a coupon that was found, in the source's order, and its evaluation.
unfoldable pub evaluate_if_in_force :
    ℕ → List DiscountableItem → Option ℕ → CouponDb → Coupon → Result Evaluation
evaluate_if_in_force now items user db c = do
  require c.is_active bad_request
  require (has_started c now) bad_request
  require (is_unexpired c now) bad_request
  require (ltb c.used_count c.max_uses) bad_request
  require (is_under_user_limit c user db.usages) bad_request
  require (ltb 0 (length items)) bad_request
  evaluate c items db.product_categories

-- `validateAndCalculateCoupon`
unfoldable pub validate_and_calculate_coupon :
    ℕ → ℕ → List DiscountableItem → Option ℕ → CouponDb → Result Evaluation
validate_and_calculate_coupon now code items user db =
    or_throw (find_by_code code db.coupons) (err bad_request)
    >>= evaluate_if_in_force now items user db

-- `recordCouponUsage`, in the caller's transaction: the conditional increment locks the coupon's
-- row, so the count that follows it is made by one transaction at a time.
unfoldable pub record_coupon_usage : CouponUsage → CouponDb → Result CouponDb
record_coupon_usage usage db = do
  c ← or_throw (find_coupon usage.coupon db.coupons) (err bad_request)
  require (ltb c.used_count c.max_uses && c.is_active) bad_request
  require (ltb (usage_count usage.coupon usage.user db.usages) c.per_user_limit) bad_request
  ok (record db {
    coupons =
        update_coupon_row usage.coupon (λ x. record x { used_count = x.used_count + 1 }) db.coupons;
    usages = usage ∷ db.usages;
  })

-- A field of a PATCH body: `undefined` or a value.
abbrev pub given_or {ℓ} : {A : Type ℓ} → Option A → A → A
given_or none old = old
given_or (some new) old = new

pub record UpdateCouponInput : Type 0 where
  pub discount_type : Option DiscountType
  pub discount_value : Option ℕ
  pub min_order_value : Option ℕ
  pub max_discount : Option (Option ℕ)
  pub max_uses : Option ℕ
  pub per_user_limit : Option ℕ
  pub starts_at : Option (Option ℕ)
  pub expires_at : Option (Option ℕ)
  pub is_active : Option Bool
  pub product_ids : Option (List ℕ)
  pub category_ids : Option (List ℕ)

-- The coupon with the given fields replaced.
unfoldable pub merged : UpdateCouponInput → Coupon → Coupon
merged input c = record c {
  discount_type = given_or input.discount_type c.discount_type;
  discount_value = given_or input.discount_value c.discount_value;
  min_order_value = given_or input.min_order_value c.min_order_value;
  max_discount = given_or input.max_discount c.max_discount;
  max_uses = given_or input.max_uses c.max_uses;
  per_user_limit = given_or input.per_user_limit c.per_user_limit;
  starts_at = given_or input.starts_at c.starts_at;
  expires_at = given_or input.expires_at c.expires_at;
  is_active = given_or input.is_active c.is_active;
  products = given_or input.product_ids c.products;
  categories = given_or input.category_ids c.categories;
}

-- `PERCENTAGE && value > 100`, in hundredths of a percent.
unfoldable pub exceeds_whole : DiscountType → ℕ → Bool
exceeds_whole percentage value = ltb 10_000 value
exceeds_whole fixed_amount value = false

-- `startsAt && expiresAt && startsAt > expiresAt`
unfoldable pub ends_before_start : Option ℕ → Option ℕ → Bool
ends_before_start (some start) (some end) = ltb end start
ends_before_start _ _ = false

-- `updateCoupon`
unfoldable pub update_coupon : ℕ → UpdateCouponInput → CouponDb → Result CouponDb
unfolding exceeds_whole ends_before_start merged
update_coupon id input db = do
  existing ← or_throw (find_coupon id db.coupons) (err not_found)
  require
      (not (
        exceeds_whole (given_or input.discount_type existing.discount_type)
          (given_or input.discount_value existing.discount_value)))
      bad_request
  require
      (not (
        ends_before_start (given_or input.starts_at existing.starts_at)
          (given_or input.expires_at existing.expires_at)))
      bad_request
  ok (record db { coupons = update_coupon_row id (merged input) db.coupons })

-- `toggleCouponStatus`
unfoldable pub toggle_coupon_status : ℕ → Bool → CouponDb → Result CouponDb
toggle_coupon_status id is_active db = do
  existing ← or_throw (find_coupon id db.coupons) (err not_found)
  ok (record db {
    coupons = update_coupon_row id (λ x. record x { is_active = is_active }) db.coupons;
  })

unfoldable pub remove_coupon_row : ℕ → List Coupon → List Coupon
remove_coupon_row id [] = []
remove_coupon_row id (c ∷ cs) = if c.id == id then cs else c ∷ remove_coupon_row id cs

-- `_count: { usages }`
unfoldable pub total_usages : ℕ → List CouponUsage → ℕ
total_usages coupon [] = 0
total_usages coupon (u ∷ us) = (if u.coupon == coupon then 1 else 0) + total_usages coupon us

-- `deleteCoupon`: a coupon that was used is only switched off.
unfoldable pub delete_coupon : ℕ → CouponDb → Result CouponDb
unfolding remove_coupon_row total_usages
delete_coupon id db = do
  existing ← or_throw (find_coupon id db.coupons) (err not_found)
  ok (record db {
    coupons =
        if ltb 0 (total_usages id db.usages)
        then update_coupon_row id (λ x. record x { is_active = false }) db.coupons
        else remove_coupon_row id db.coupons;
  })

-- `createCoupon`: the schema has checked the input, and the row starts unused.
unfoldable pub create_coupon : Coupon → CouponDb → Result CouponDb
create_coupon c db = elim (find_by_code c.code db.coupons) [
  | some existing ↦ err conflict
  | none ↦ ok (record db { coupons = record c { used_count = 0 } ∷ db.coupons })
]
