-- ===== src/Checkout/Outcome.antt =====
-- What `processCheckout` of backend/src/services/checkout.service.ts went through when it answers with
-- a new order.
use vedhicfoods.Prelude.{ℕ, ◌≡◌, inl, inr, true, false, Option, List, arith, Option-cases, ap}
use vedhicfoods.Result.{ok, Error, >>=-eq-ok, ◌>>=◌, Result-cases}
use vedhicfoods.Inventory.State.{ReservationItem}
use vedhicfoods.Checkout.Shop.{Shop, Sale}
use vedhicfoods.Checkout.Pricing.{Quote, quote}
use vedhicfoods.Discounts.Service.{Evaluation}
use vedhicfoods.Checkout.Service.{
  CheckoutInput, CheckoutAnswer, Buyer, effective_key, probe, resolve_buyer, open_cart, raw_items,
  new_sale, create_order, complete_order, resolve_collision, place_order, buy, process_checkout,
}

-- The steps of a checkout that placed an order, and the tables before and after its transaction.
pub record Placement (others : Shop → Shop) (now number user : ℕ) (input : CheckoutInput)
    (header : Option ℕ) (s : Shop) (sale : Sale) (s' : Shop) : Type 0 where
  pub buyer : Buyer
  pub resolved : resolve_buyer input user s ≡ ok buyer
  pub items : List ReservationItem
  pub read : raw_items input user (open_cart input user s) ≡ ok items
  pub price : Quote
  pub quoted : quote now input.coupon_code user items (open_cart input user s) ≡ ok price
  pub is_sale :
      sale
      ≡ new_sale input
          (effective_key input header)
          now
          number
          (others (open_cart input user s)).next_id
          user
          buyer
          price
  pub opened : Shop
  pub created : create_order sale (others (open_cart input user s)) ≡ ok opened
  pub completed : complete_order sale price.coupon opened ≡ ok s'

-- A collision never ends with a new order.
resolve_collision-replay :
    (key : Option ℕ) (user : ℕ) (e : Error) (t : Shop) (a : CheckoutAnswer)
    → resolve_collision key user e t ≡ ok a
    → a.is_replay ≡ true
unfolding resolve_collision
resolve_collision-replay key user e t a h = ground arith

place_order-new :
    (sale placed : Sale) (key : Option ℕ) (coupon : Option Evaluation) (t s' : Shop)
    → place_order sale key coupon t ≡ (ok (record { sale = placed; is_replay = false }), s')
    → (opened : Shop) × (create_order sale t ≡ ok opened)
      × (complete_order sale coupon opened ≡ ok s')
      × (placed ≡ sale)
unfolding place_order
place_order-new sale placed key coupon t s' e = elim (Result-cases (create_order sale t)) [
  | inl (thrown, refused) ↦
      let h : resolve_collision key sale.base.user thrown t
          ≡ ok (record { sale = placed; is_replay = false }) =
        ap (λ r. r.0) (rw (refused, place_order) at e) in
      absurd (cc (resolve_collision-replay key sale.base.user thrown t _ h))
  | inr (opened, created) ↦ elim (Result-cases (complete_order sale coupon opened)) [
    | inl (thrown, refused) ↦
        let h : resolve_collision key sale.base.user thrown t
            ≡ ok (record { sale = placed; is_replay = false }) =
          ap (λ r. r.0) (rw (created, refused, place_order) at e) in
        absurd (cc (resolve_collision-replay key sale.base.user thrown t _ h))
    | inr (done, completed) ↦
        let h = rw (created, completed, place_order) at e in
        (opened, created, cc (completed, h), cc h)
  ]
]

buy-Placement :
    (others : Shop → Shop) (now number user : ℕ) (input : CheckoutInput) (header : Option ℕ)
    (buyer : Buyer) (s s' : Shop) (sale : Sale)
    → resolve_buyer input user s ≡ ok buyer
    → buy others now number user input (effective_key input header) buyer s
      ≡ (ok (record { sale = sale; is_replay = false }), s')
    → Placement others now number user input header s sale s'
unfolding buy
buy-Placement others now number user input header buyer s s' sale resolved e =
    let opened_cart = open_cart input user s in
    let priced = raw_items input user opened_cart >>= λ items.
    quote now input.coupon_code user items opened_cart in
    elim (Result-cases priced) [
      | inl (thrown, refused) ↦ absurd (cc (rw (refused, buy) at e))
      | inr (q, ready) ↦
          let (items, read, quoted) =
            >>=-eq-ok (raw_items input user opened_cart)
              (λ items. quote now input.coupon_code user items opened_cart) ready in
          let t = others opened_cart in
          let (opened, created, completed, is_sale) =
            place_order-new
              (new_sale input (effective_key input header) now number t.next_id user buyer q) sale
              (effective_key input header) q.coupon t s' (rw (ready, buy) at e) in
          record {
            buyer = buyer;
            resolved = resolved;
            items = items;
            read = read;
            price = q;
            quoted = quoted;
            is_sale = is_sale;
            opened = opened;
            created = rw is_sale created;
            completed = rw is_sale completed;
          }
    ]

-- A checkout that answers with a new order went through every step.
pub process_checkout-Placement :
    (others : Shop → Shop) (now number user : ℕ) (input : CheckoutInput) (header : Option ℕ)
    (s s' : Shop) (sale : Sale)
    → process_checkout others now number user input header s
      ≡ (ok (record { sale = sale; is_replay = false }), s')
    → Placement others now number user input header s sale s'
unfolding process_checkout
process_checkout-Placement others now number user input header s s' sale e =
    elim (Option-cases (probe (effective_key input header) s.sales)) [
      | inr (old, found) ↦ absurd (ground (arith, rw (found, process_checkout) at e))
      | inl fresh ↦ elim (Result-cases (resolve_buyer input user s)) [
        | inl (thrown, refused) ↦ absurd (cc (rw (fresh, refused, process_checkout) at e))
        | inr (buyer, resolved) ↦
            buy-Placement others now number user input header buyer s s' sale resolved
              (rw (fresh, resolved, process_checkout) at e)
      ]
    ]
