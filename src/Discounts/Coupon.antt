-- ===== src/Discounts/Coupon.antt =====
-- The coupon tables of backend/src/services/discount.service.ts, and the arithmetic of a discount.
--
-- Amounts are whole paise and percentages whole hundredths of a percent, as their Decimal(10, 2)
-- columns hold them. The source computes with binary floating-point numbers; the model computes the
-- exact values that these stand for. A raw discount is counted in ten-thousandths of a paisa.
use vedhicfoods.Prelude.{
  ℕ, ◌+◌, ◌*◌, ◌/◌, Bool, true, false, ◌&&◌, ◌||◌, not, Option, none, some, List, [], ◌∷◌, min,
  contains, ltb, ◌==◌, if◌then◌else◌,
}

pub data DiscountType : Type 0 where
  percentage fixed_amount : DiscountType

pub record Coupon : Type 0 where
  pub id : ℕ
  pub code : ℕ
  pub discount_type : DiscountType
  pub discount_value : ℕ
  pub min_order_value : ℕ
  pub max_discount : Option ℕ
  pub max_uses : ℕ
  pub used_count : ℕ
  pub per_user_limit : ℕ
  pub starts_at : Option ℕ
  pub expires_at : Option ℕ
  pub is_active : Bool
  pub products : List ℕ
  pub categories : List ℕ

pub record CouponUsage : Type 0 where
  pub coupon : ℕ
  pub user : ℕ
  pub order : ℕ
  pub discount_applied : ℕ

-- `product_categories` is the category column of the product table.
pub record CouponDb : Type 0 where
  pub coupons : List Coupon
  pub usages : List CouponUsage
  pub product_categories : List (ℕ × ℕ)

pub record DiscountableItem : Type 0 where
  pub product : ℕ
  pub category : Option ℕ
  pub price : ℕ
  pub quantity : ℕ

-- `productCategoryMap.get(productId)`
unfoldable pub lookup : ℕ → List (ℕ × ℕ) → Option ℕ
lookup k [] = none
lookup k ((j, v) ∷ m) = if j == k then some v else lookup k m

-- `item.categoryId || productCategoryMap.get(item.productId) || null`
unfoldable pub enrich : List (ℕ × ℕ) → DiscountableItem → DiscountableItem
unfolding lookup
enrich m item = record item {
  category = elim item.category [ none ↦ lookup item.product m | some c ↦ some c ];
}

-- `items.reduce((acc, item) => acc + item.price * item.quantity, 0)`
unfoldable pub subtotal_from : ℕ → List DiscountableItem → ℕ
subtotal_from acc [] = acc
subtotal_from acc (item ∷ items) = subtotal_from (acc + item.price * item.quantity) items

abbrev pub is_empty : List ℕ → Bool
is_empty [] = true
is_empty (x ∷ xs) = false

-- The filter on products and categories; a coupon without either covers every item.
unfoldable pub is_eligible : Coupon → DiscountableItem → Bool
is_eligible c item =
    let has_product_filter = not (is_empty c.products) in
    let has_category_filter = not (is_empty c.categories) in
    if not has_product_filter && not has_category_filter
    then true
    else (has_product_filter && contains item.product c.products)
      || (has_category_filter
          && elim item.category [ none ↦ false | some k ↦ contains k c.categories ])

-- Ten-thousandths of a paisa in a paisa.
abbrev pub scale : ℕ
scale = 10_000

-- `rawDiscount`, before the final checks.
unfoldable pub raw_discount : Coupon → ℕ → ℕ
raw_discount c eligible = elim c.discount_type [
  | percentage ↦
      let raw = eligible * c.discount_value in
      elim c.max_discount [
        | none ↦ raw
        | some cap ↦ if ltb (cap * scale) raw then cap * scale else raw
      ]
  | fixed_amount ↦ min eligible c.discount_value * scale
]

-- `Math.min(rawDiscount, eligibleSubtotal, totalCartSubtotal)`, rounded to the nearest paisa, half
-- upwards as `Math.round` does.
unfoldable pub discount_amount : Coupon → ℕ → ℕ → ℕ
unfolding raw_discount
discount_amount c eligible total =
    (min (raw_discount c eligible) (min (eligible * scale) (total * scale)) + 5_000) / scale
