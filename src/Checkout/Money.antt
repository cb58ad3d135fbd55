-- ===== src/Checkout/Money.antt =====
-- The money of an order of backend/src/services/checkout.service.ts.
use vedhicfoods.Prelude.{
  ℕ, suc, Bool, get_elem?, ◌+◌, ◌-◌, ◌*◌, ◌≤◌, ◌<◌, ◌≡◌, refl, true, false, ◌&&◌, not, Option, none,
  some, List, [], ◌∷◌, map, ◌∙◌, arith, All, inl, inr, Bool-cases, Option-cases, ◌==◌,
}
use vedhicfoods.Result.{ok, >>=-eq-ok}
use vedhicfoods.Inventory.State.{ReservationItem}
use vedhicfoods.Discounts.Coupon.{CouponDb, DiscountableItem, subtotal_from, enrich}
use vedhicfoods.Discounts.Service.{
  Evaluation, evaluate, evaluate_if_in_force, validate_and_calculate_coupon, find_by_code,
}
use vedhicfoods.Discounts.Amounts.{validate-IsFair}
use vedhicfoods.Cart.Store.{CatalogProduct, available_quantity}
use vedhicfoods.Checkout.Shop.{Shop, Sale, OrderLine, catalog}
use vedhicfoods.Checkout.Pricing.{
  find_undeleted, find_requested, line_of, price_item, price_items, total_of, discountable, Quote,
  shipping_of, tax_of, charge, evaluate_coupon, quote,
}
use vedhicfoods.Checkout.Rounding.{max_paise, tax_of-close, total_with-exact}
use vedhicfoods.Checkout.Service.{CheckoutInput, process_checkout, new_sale, open_cart}
use vedhicfoods.Checkout.Outcome.{process_checkout-Placement}

-- The line charges what the catalogue asks for a product that is for sale and in stock.
pub record IsListedAs (l : OrderLine) (p : CatalogProduct) : Type 0 where
  pub same_product : l.product ≡ p.base.id
  pub on_sale : (p.is_active && p.is_published && not p.is_deleted) ≡ true
  pub some_units : 0 < l.quantity
  pub in_stock : l.quantity ≤ available_quantity p
  pub same_price : l.price ≡ p.price
  pub whole_price : l.subtotal ≡ p.price * l.quantity

abbrev pub IsPriced : Shop → OrderLine → Type 0
IsPriced s l = (i : ℕ) × (p : CatalogProduct) × (get_elem? (catalog s) i ≡ some p) × IsListedAs l p

find_undeleted-found :
    (test : CatalogProduct → Bool) (ps : List CatalogProduct) (p : CatalogProduct)
    → find_undeleted test ps ≡ some p
    → (i : ℕ) × (get_elem? ps i ≡ some p) × (p.is_deleted ≡ false)
unfolding find_undeleted
find_undeleted-found test [] p e = cc
find_undeleted-found test (q ∷ ps) p e = elim (Bool-cases (test q && not q.is_deleted)) [
  | inl hit ↦ (0, ground arith, ground arith)
  | inr miss ↦
      let (i, at, kept) = find_undeleted-found test ps p (rw miss at e) in (suc i, at, kept)
]

find_requested-found :
    (key : ℕ) (ps : List CatalogProduct) (p : CatalogProduct)
    → find_requested key ps ≡ some p
    → (i : ℕ) × (get_elem? ps i ≡ some p) × (p.is_deleted ≡ false)
unfolding find_requested
find_requested-found key ps p e = elim (Option-cases (find_undeleted (λ q. q.base.id == key) ps)) [
  | inr (q, by_id) ↦
      find_undeleted-found (λ q. q.base.id == key) ps p (by_id ∙ (rw (by_id, find_requested) at e))
  | inl no_id ↦
      find_undeleted-found (λ q. q.base.slug == key) ps p (rw (no_id, find_requested) at e)
]

price_item-IsPriced :
    (s : Shop) (item : ReservationItem) (l : OrderLine) → price_item s item ≡ ok l → IsPriced s l
unfolding price_item
price_item-IsPriced s item l e = elim (Option-cases (find_requested item.product (catalog s))) [
  | inl missing ↦ absurd (unfold price_item in ground (arith, rw (missing, price_item) at e))
  | inr (p, found) ↦
      let (i, at, kept) = find_requested-found item.product (catalog s) p found in
      let h = rw (found, price_item) at e in
      (
        i,
        p,
        at,
        unfold line_of in
            record {
              same_product = ground arith;
              on_sale = ground arith;
              some_units = ground arith;
              in_stock = ground arith;
              same_price = ground arith;
              whole_price = ground arith;
            },
      )
]

pub price_items-IsPriced :
    (s : Shop) (items : List ReservationItem) (lines : List OrderLine)
    → price_items s items ≡ ok lines
    → All (IsPriced s) lines
unfolding price_items
price_items-IsPriced s [] lines e = let same : lines ≡ [] = ground arith in rw same tt
price_items-IsPriced s (item ∷ items) lines e =
    let (l, priced, rest) = >>=-eq-ok (price_item s item) _ e in
    let (ls, others, done) = >>=-eq-ok (price_items s items) _ rest in
    let same : lines ≡ l ∷ ls = ground arith in
    rw same (price_item-IsPriced s item l priced, price_items-IsPriced s items ls others)

-- The worth of a line, recomputed.
abbrev pub worth : OrderLine → ℕ
worth l = l.price * l.quantity

-- The coupon looks at the same money.
subtotal_from-discountable :
    (m : List (ℕ × ℕ)) (acc : ℕ) (ls : List OrderLine)
    → subtotal_from acc (map (enrich m) (discountable ls)) ≡ acc + total_of worth ls
unfolding subtotal_from discountable total_of enrich
subtotal_from-discountable m acc [] = omega arith
subtotal_from-discountable m acc (l ∷ ls) =
    subtotal_from-discountable m (acc + worth l) ls ∙ omega arith

IsPriced-worth :
    (s : Shop) (ls : List OrderLine)
    → All (IsPriced s) ls
    → total_of (λ l. l.subtotal) ls ≡ total_of worth ls
unfolding total_of
IsPriced-worth s [] h = refl
IsPriced-worth s (l ∷ ls) h = cc (h.0.3.same_price, h.0.3.whole_price, IsPriced-worth s ls h.1)

-- The evaluation of a coupon sums up the cart that it was given.
evaluation-subtotal :
    (now code : ℕ) (items : List DiscountableItem) (user : Option ℕ) (db : CouponDb)
    (e : Evaluation)
    → validate_and_calculate_coupon now code items user db ≡ ok e
    → e.subtotal ≡ subtotal_from 0 (map (enrich db.product_categories) items)
unfolding validate_and_calculate_coupon evaluate_if_in_force evaluate
evaluation-subtotal now code items user db e h =
    elim (Option-cases (find_by_code code db.coupons)) [
      | inl missing ↦ absurd (cc (rw (missing, validate_and_calculate_coupon) at h))
      | inr (c, found) ↦
          let h' = rw (found, validate_and_calculate_coupon) at h in ground (arith, h')
    ]

-- A coupon never takes more than the lines are worth.
evaluate_coupon-le :
    (now : ℕ) (code : Option ℕ) (user : ℕ) (ls : List OrderLine) (s : Shop)
    (coupon : Option Evaluation)
    → evaluate_coupon now code user ls s ≡ ok coupon
    → elim coupon as (λ _. ℕ) [ none ↦ 0 | some e ↦ e.discount_amount ] ≤ total_of worth ls
unfolding evaluate_coupon
evaluate_coupon-le now none user ls s coupon h =
    let same : coupon ≡ none = ground arith in rw same (omega arith)
evaluate_coupon-le now (some code) user ls s coupon h =
    let (e, evaluated, done) =
      >>=-eq-ok (validate_and_calculate_coupon now code (discountable ls) (some user) s.coupons) _
        h in
    let (c, found, in_force, summed, fair) =
      validate-IsFair now code (discountable ls) (some user) s.coupons e evaluated in
    let same : coupon ≡ some e = ground arith in
    rw same (
      omega (
        arith,
        fair.not_above_eligible,
        fair.eligible_not_above,
        evaluation-subtotal now code (discountable ls) (some user) s.coupons e evaluated,
        subtotal_from-discountable s.coupons.product_categories 0 ls,
      ))

-- The money of a priced order.
pub record IsCharged (s : Shop) (lines : List OrderLine) (subtotal discount shipping tax total : ℕ)
    : Type 0 where
  pub priced : All (IsPriced s) lines
  pub worth_of_lines : subtotal ≡ total_of worth lines
  pub discounted : discount ≤ subtotal
  pub free_delivery : 49_900 ≤ subtotal → shipping ≡ 0
  pub paid_delivery : subtotal < 49_900 → shipping ≡ 4_900
  pub tax_from : 100 * tax ≤ 5 * (subtotal - discount) + 50
  pub tax_to : 5 * (subtotal - discount) ≤ 100 * tax + 50
  pub whole : total + discount ≡ subtotal + shipping + tax

shipping_of-small : (n : ℕ) → shipping_of n < max_paise
unfolding shipping_of
shipping_of-small n = ground arith

quote-IsCharged :
    (now : ℕ) (code : Option ℕ) (user : ℕ) (items : List ReservationItem) (s : Shop) (q : Quote)
    → quote now code user items s ≡ ok q
    → q.subtotal < max_paise
    → IsCharged s q.lines q.subtotal q.discount q.shipping q.tax q.total
unfolding quote charge shipping_of
quote-IsCharged now code user items s q e small =
    let (ls, priced, rest) = >>=-eq-ok (price_items s items) _ e in
    let (coupon, evaluated, done) = >>=-eq-ok (evaluate_coupon now code user ls s) _ rest in
    let listed = price_items-IsPriced s items ls priced in
    let same : q ≡ charge ls coupon = ground arith in
    let sums = IsPriced-worth s ls listed in
    let below = evaluate_coupon-le now code user ls s coupon evaluated in
    let total : ℕ = total_of (λ l. l.subtotal) ls in
    let off : ℕ = elim coupon [ none ↦ 0 | some e ↦ e.discount_amount ] in
    let le : off ≤ total = rw sums below in
    let small' : total < max_paise = rw same at small in
    let taxed = tax_of-close total off le small' in
    rw same (record {
      priced = listed;
      worth_of_lines = sums;
      discounted = le;
      free_delivery = λ h. ground arith;
      paid_delivery = λ h. ground arith;
      tax_from = taxed.0;
      tax_to = taxed.1;
      whole =
          total_with-exact total off (shipping_of total) (tax_of total off) le small'
            (shipping_of-small total) (omega (arith, taxed.0, small'));
    })

-- A checkout that answers with a new order, of a subtotal below ten thousand million rupees, charges for
-- each line the catalogue's price of a product that is for sale and has the units; the subtotal is the
-- sum of prices times quantities, the discount is at most the subtotal, delivery is free from 499
-- rupees on and else 49 rupees, the tax is 5% of the discounted subtotal to the nearest paisa, half a
-- paisa going either way, and the total with the discount is the subtotal with delivery and tax.
pub process_checkout-IsCharged :
    (others : Shop → Shop) (now number user : ℕ) (input : CheckoutInput) (header : Option ℕ)
    (s s' : Shop) (sale : Sale)
    → process_checkout others now number user input header s
      ≡ (ok (record { sale = sale; is_replay = false }), s')
    → sale.subtotal < max_paise
    → IsCharged
        (open_cart input user s)
        sale.lines
        sale.subtotal
        sale.discount
        sale.shipping
        sale.tax
        sale.total
unfolding new_sale
process_checkout-IsCharged others now number user input header s s' sale e small =
    let p = process_checkout-Placement others now number user input header s s' sale e in
    rw p.is_sale (
      quote-IsCharged now input.coupon_code user p.items (open_cart input user s) p.price p.quoted
        (rw p.is_sale at small))
