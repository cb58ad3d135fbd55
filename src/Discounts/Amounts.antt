-- ===== src/Discounts/Amounts.antt =====
-- How much a coupon of backend/src/services/discount.service.ts takes off, and when it applies.
use vedhicfoods.Prelude.{
  ℕ, ◌+◌, ◌*◌, ◌≤◌, ◌<◌, ◌≡◌, sym, subst, ◌∙◌, Bool, true, Option, none, some, List, [], ◌∷◌, map,
  min, arith, filter_by, Bool-cases, Option-cases, inl, inr,
}
use vedhicfoods.Result.{ok}
use vedhicfoods.Discounts.Coupon.{
  Coupon, CouponDb, percentage, fixed_amount, DiscountableItem, enrich, subtotal_from, is_eligible,
  raw_discount, discount_amount, scale,
}
use vedhicfoods.Discounts.Coverage.{
  worth_of, CoveredWorth, subtotal_from-add, subtotal-worth_of, subtotal-CoveredWorth,
}
use vedhicfoods.Discounts.Service.{
  Evaluation, evaluate, evaluate_if_in_force, validate_and_calculate_coupon, find_by_code,
  has_started, is_unexpired, is_under_user_limit,
}

-- What the coupon's own terms allow: a percentage up to its cap, or a fixed amount.
abbrev pub IsWithinTerms : Coupon → ℕ → Type 0
IsWithinTerms c amount = elim c.discount_type [
  | percentage ↦ elim c.max_discount [ none ↦ Unit {0} | some cap ↦ amount ≤ cap ]
  | fixed_amount ↦ amount ≤ c.discount_value
]

-- The paise nearest to an exact amount, half a paisa rounded up.
abbrev pub IsNearest : ℕ → ℕ → Type 0
IsNearest exact amount = (amount * scale ≤ exact + 5_000) × (exact < amount * scale + 5_000)

-- The discount is at most the eligible and the whole subtotal and what the coupon's terms allow, and
-- lies within half a paisa of the exact amount.
pub discount_amount_bounds :
    (c : Coupon) (eligible total : ℕ)
    → (discount_amount c eligible total ≤ eligible)
      × (discount_amount c eligible total ≤ total)
      × IsWithinTerms c (discount_amount c eligible total)
      × IsNearest
          (min (raw_discount c eligible) (min (eligible * scale) (total * scale)))
          (discount_amount c eligible total)
unfolding discount_amount
discount_amount_bounds c eligible total = ground arith

subtotal-filter_by :
    (test : DiscountableItem → Bool) (items : List DiscountableItem)
    → subtotal_from 0 (filter_by test items) ≤ subtotal_from 0 items
unfolding subtotal_from
subtotal-filter_by test [] = omega arith
subtotal-filter_by test (i ∷ items) = elim (Bool-cases (test i)) [
  | inl kept ↦ rw kept (
      omega (
        arith,
        subtotal-filter_by test items,
        subtotal_from-add (0 + i.price * i.quantity) items,
        subtotal_from-add (0 + i.price * i.quantity) (filter_by test items),
      ))
  | inr dropped ↦ rw dropped (
      omega
        (arith, subtotal-filter_by test items, subtotal_from-add (0 + i.price * i.quantity) items))
]

-- The sums of an evaluation: of all lines, and of those that the coupon covers.
pub record IsSummed (c : Coupon) (m : List (ℕ × ℕ)) (items : List DiscountableItem) (e : Evaluation)
    : Type 0 where
  pub whole : e.subtotal ≡ worth_of items
  pub of_covered : CoveredWorth c m items e.eligible_subtotal

evaluate-IsSummed :
    (c : Coupon) (items : List DiscountableItem) (categories : List (ℕ × ℕ)) (e : Evaluation)
    → evaluate c items categories ≡ ok e
    → IsSummed c categories items e
unfolding evaluate
evaluate-IsSummed c items categories e h =
    let enriched = map (enrich categories) items in
    let whole : subtotal_from 0 enriched ≡ e.subtotal = ground arith in
    let eligible : subtotal_from 0 (filter_by (is_eligible c) enriched) ≡ e.eligible_subtotal =
      ground arith in
    record {
      whole = sym whole ∙ subtotal-worth_of categories items;
      of_covered =
          subst (CoveredWorth c categories items) eligible
            (subtotal-CoveredWorth c categories items);
    }

-- What an evaluation says of a cart.
pub record IsFair (c : Coupon) (e : Evaluation) : Type 0 where
  pub same_coupon : e.coupon ≡ c.id
  pub not_above_eligible : e.discount_amount ≤ e.eligible_subtotal
  pub eligible_not_above : e.eligible_subtotal ≤ e.subtotal
  pub minimum_met : c.min_order_value ≤ e.eligible_subtotal
  pub within_terms : IsWithinTerms c e.discount_amount

evaluate-IsFair :
    (c : Coupon) (items : List DiscountableItem) (categories : List (ℕ × ℕ)) (e : Evaluation)
    → evaluate c items categories ≡ ok e
    → IsFair c e
unfolding evaluate
evaluate-IsFair c items categories e h =
    let enriched = map (enrich categories) items in
    ground (
      arith,
      subtotal-filter_by (is_eligible c) enriched,
      discount_amount_bounds c (subtotal_from 0 (filter_by (is_eligible c) enriched))
          (subtotal_from 0 enriched),
    )

-- The coupon is in force at this time, for this customer.
pub record IsInForce (now : ℕ) (user : Option ℕ) (db : CouponDb) (c : Coupon) : Type 0 where
  pub active : c.is_active ≡ true
  pub started : has_started c now ≡ true
  pub unexpired : is_unexpired c now ≡ true
  pub not_used_up : c.used_count < c.max_uses
  pub user_not_used_up : is_under_user_limit c user db.usages ≡ true

IsInForce-cases :
    (now : ℕ) (items : List DiscountableItem) (user : Option ℕ) (db : CouponDb) (c : Coupon)
    (e : Evaluation)
    → evaluate_if_in_force now items user db c ≡ ok e
    → IsInForce now user db c × (evaluate c items db.product_categories ≡ ok e)
unfolding evaluate_if_in_force
IsInForce-cases now items user db c e h = ground arith

-- A coupon that `validateAndCalculateCoupon` accepts is the one with that code and is in force; the
-- subtotal is the worth of all lines, and the eligible subtotal that of the lines that the coupon
-- covers by product or by category, which are all lines if it names neither; the discount is at most
-- the eligible subtotal, that is at most the subtotal and at least the minimum order value, and the
-- discount obeys the coupon's cap or fixed amount.
pub validate-IsFair :
    (now code : ℕ) (items : List DiscountableItem) (user : Option ℕ) (db : CouponDb)
    (e : Evaluation)
    → validate_and_calculate_coupon now code items user db ≡ ok e
    → (c : Coupon) × (find_by_code code db.coupons ≡ some c)
      × IsInForce now user db c
      × IsSummed c db.product_categories items e
      × IsFair c e
unfolding validate_and_calculate_coupon
validate-IsFair now code items user db e h = elim (Option-cases (find_by_code code db.coupons)) [
  | inl missing ↦ absurd (cc (rw (missing, validate_and_calculate_coupon) at h))
  | inr (c, found) ↦
      let (in_force, evaluated) =
        IsInForce-cases now items user db c e (rw (found, validate_and_calculate_coupon) at h) in
      (
        c,
        found,
        in_force,
        evaluate-IsSummed c items db.product_categories e evaluated,
        evaluate-IsFair c items db.product_categories e evaluated,
      )
]
