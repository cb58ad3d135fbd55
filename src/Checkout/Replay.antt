-- ===== src/Checkout/Replay.antt =====
-- The idempotency key of backend/src/services/checkout.service.ts.
use vedhicfoods.Prelude.{
  ℕ, ◌≡◌, refl, true, false, Option, none, some, List, ◌∷◌, ap, ◌∙◌, arith, ◌==◌, any_by, inl, inr,
  Bool-cases, ◌≢◌, if◌then◌else◌,
}
use vedhicfoods.Result.{ok, err, conflict, >>=-eq-ok}
use vedhicfoods.Inventory.Service.{reserve_stock}
use vedhicfoods.Discounts.Service.{Evaluation}
use vedhicfoods.Checkout.Shop.{Shop, Sale, find_by_key, reservations}
use vedhicfoods.Checkout.Service.{
  CheckoutInput, effective_key, probe, create_order, complete_order, confirm_if_cod, use_coupon,
  is_taken, process_checkout, new_sale, open_cart,
}
use vedhicfoods.Checkout.Outcome.{process_checkout-Placement}

-- The new order comes first, and its unique columns were free.
pub create_order-sales :
    (sale : Sale) (t opened : Shop)
    → create_order sale t ≡ ok opened
    → (opened.sales ≡ sale ∷ t.sales) × (any_by (is_taken sale) t.sales ≡ false)
unfolding create_order
create_order-sales sale t opened e =
    let (held, reserved, rest) =
      >>=-eq-ok (reserve_stock (reservations sale.lines) none t.db) _ e in
    elim (Bool-cases (any_by (is_taken sale) t.sales)) [
      | inl taken ↦ absurd (cc (rw taken at rest))
      | inr free ↦ (ground arith, free)
    ]

pub complete_order-sales :
    (sale : Sale) (coupon : Option Evaluation) (opened s' : Shop)
    → complete_order sale coupon opened ≡ ok s'
    → s'.sales ≡ opened.sales
unfolding complete_order
complete_order-sales sale coupon opened s' e =
    let (settled, confirmed, rest) = >>=-eq-ok (confirm_if_cod sale _) _ e in
    let (coupons, used, done) = >>=-eq-ok (use_coupon sale coupon opened.coupons) _ rest in
    ground arith

-- The orders after a checkout that placed one.
pub process_checkout-sales :
    (others : Shop → Shop) (now number user : ℕ) (input : CheckoutInput) (header : Option ℕ)
    (s s' : Shop) (sale : Sale)
    → process_checkout others now number user input header s
      ≡ (ok (record { sale = sale; is_replay = false }), s')
    → (s'.sales ≡ sale ∷ (others (open_cart input user s)).sales)
      × (any_by (is_taken sale) (others (open_cart input user s)).sales ≡ false)
      × (sale.idempotency_key ≡ effective_key input header)
      × (sale.base.user ≡ user)
process_checkout-sales others now number user input header s s' sale e =
    let p = process_checkout-Placement others now number user input header s s' sale e in
    let (opened, free) =
      create_order-sales sale (others (open_cart input user s)) p.opened p.created in
    (
      complete_order-sales sale p.price.coupon p.opened s' p.completed ∙ opened,
      free,
      unfold new_sale in ap (λ (x : Sale). x.idempotency_key) p.is_sale,
      unfold new_sale in ap (λ (x : Sale). x.base.user) p.is_sale,
    )

-- A key that was used answers with its order to the customer who used it, and is refused to others.
replay :
    (others : Shop → Shop) (now number user : ℕ) (input : CheckoutInput) (header : Option ℕ)
    (s : Shop) (sale : Sale)
    → probe (effective_key input header) s.sales ≡ some sale
    → process_checkout others now number user input header s ≡ (
        if sale.base.user == user
        then (ok (record { sale = sale; is_replay = true }), s)
        else (err conflict, s))
unfolding process_checkout
replay others now number user input header s sale found = rw (process_checkout, found) refl

probe-first :
    (key : ℕ) (o : Option ℕ) (sale : Sale) (sales : List Sale)
    → o ≡ some key
    → sale.idempotency_key ≡ some key
    → probe o (sale ∷ sales) ≡ some sale
unfolding probe find_by_key
probe-first key o sale sales e keyed = rw (e, keyed) (ground arith)

-- After a checkout that answered with a new order and was sent an idempotency key, any further
-- checkout of the same customer under that key, whatever else it asks for, answers with that order
-- as a replay and changes nothing.
pub process_checkout-process_checkout :
    (others others' : Shop → Shop) (now now' number number' user key : ℕ)
    (input input' : CheckoutInput) (header header' : Option ℕ) (s s' : Shop) (sale : Sale)
    → effective_key input header ≡ some key
    → effective_key input' header' ≡ some key
    → process_checkout others now number user input header s
      ≡ (ok (record { sale = sale; is_replay = false }), s')
    → process_checkout others' now' number' user input' header' s'
      ≡ (ok (record { sale = sale; is_replay = true }), s')
process_checkout-process_checkout others others' now now' number number' user key input input'
      header header' s s' sale with_key with_key' e =
    let (sales, free, keyed, owned) =
      process_checkout-sales others now number user input header s s' sale e in
    let found : probe (effective_key input' header') s'.sales ≡ some sale =
      rw sales
        (probe-first key (effective_key input' header') sale _ with_key' (keyed ∙ with_key)) in
    let answer = replay others' now' number' user input' header' s' sale found in
    rw (answer, owned) (ground arith)

-- A key that another account's order has used is refused, and nothing changes.
pub process_checkout-conflict :
    (others : Shop → Shop) (now number user key : ℕ) (input : CheckoutInput) (header : Option ℕ)
    (s : Shop) (sale : Sale)
    → effective_key input header ≡ some key
    → find_by_key key s.sales ≡ some sale
    → sale.base.user ≢ user
    → process_checkout others now number user input header s ≡ (err conflict, s)
process_checkout-conflict others now number user key input header s sale with_key found other =
    let probed : probe (effective_key input header) s.sales ≡ some sale =
      unfold probe in rw with_key found in
    rw (replay others now number user input header s sale probed) (ground arith)
