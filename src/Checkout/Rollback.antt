-- ===== src/Checkout/Rollback.antt =====
-- Refused checkouts of backend/src/services/checkout.service.ts.
use vedhicfoods.Prelude.{
  ℕ, Bool, not, ◌≡◌, refl, sym, false, Option, none, some, List, [], ◌∷◌, ap, arith, inl, inr, ◌⊎◌,
  Option-cases,
}
use vedhicfoods.Result.{Result, ok, err, Result-cases, ◌>>=◌}
use vedhicfoods.Discounts.Service.{Evaluation}
use vedhicfoods.Cart.Service.{ensure_cart}
use vedhicfoods.Inventory.State.{ReservationItem}
use vedhicfoods.Checkout.Shop.{Shop, Sale, cart_tables}
use vedhicfoods.Checkout.Pricing.{quote}
use vedhicfoods.Checkout.Service.{
  CheckoutInput, CheckoutAnswer, Buyer, effective_key, probe, resolve_buyer, open_cart, raw_items,
  create_order, complete_order, place_order, buy, process_checkout,
}

-- Nothing was ordered: no stock, order, payment, delivery, coupon use or line of a cart has changed.
abbrev pub IsUntouched : Shop → Shop → Type 0
IsUntouched s s' =
    (s'.db ≡ s.db)
    × (s'.sales ≡ s.sales)
    × (s'.payments ≡ s.payments)
    × (s'.delivery_history ≡ s.delivery_history)
    × (s'.coupons ≡ s.coupons)
    × (s'.cart_items ≡ s.cart_items)

-- The answer is an order that this call has placed.
abbrev pub is_new : Result CheckoutAnswer → Bool
is_new (err e) = false
is_new (ok a) = not a.is_replay

unchanged : (s : Shop) → IsUntouched s s
unchanged s = (refl, refl, refl, refl, refl, refl)

-- Reading the cart may create it, and no more.
open_cart-IsUntouched :
    (input : CheckoutInput) (user : ℕ) (s : Shop) → IsUntouched s (open_cart input user s)
unfolding open_cart
open_cart-IsUntouched input user s = go input.items
  where
    go :
        (items : List ReservationItem)
        → IsUntouched s (elim items [
          | item ∷ rest ↦ s
          | [] ↦
              let tables =
                ensure_cart (record { user = some user; session_token = none }) (cart_tables s) in
              record s { carts = tables.carts; next_id = tables.next_id }
        ])
    go [] = unchanged s
    go (item ∷ rest) = unchanged s

place_order-IsUntouched :
    (sale : Sale) (key : Option ℕ) (coupon : Option Evaluation) (t s' : Shop)
    (r : Result CheckoutAnswer)
    → is_new r ≡ false
    → place_order sale key coupon t ≡ (r, s')
    → IsUntouched t s'
unfolding place_order
place_order-IsUntouched sale key coupon t s' r old h = elim (Result-cases (create_order sale t)) [
  | inl (thrown, refused) ↦
      let same : s' ≡ t = sym (ap (λ x. x.1) (rw (refused, place_order) at h)) in
      rw same (unchanged t)
  | inr (opened, created) ↦ elim (Result-cases (complete_order sale coupon opened)) [
    | inl (thrown, refused) ↦
        let same : s' ≡ record t { events = opened.events } =
          sym (ap (λ x. x.1) (rw (created, refused, place_order) at h)) in
        rw same (unchanged t)
    | inr (done, completed) ↦
        let new : r ≡ ok (record { sale = sale; is_replay = false }) =
          sym (ap (λ x. x.0) (rw (created, completed, place_order) at h)) in
        absurd (cc (rw new at old))
  ]
]

-- Any answer of a checkout but a new order, errors and replays, leaves stock, orders, payments,
-- deliveries, coupon uses and cart lines as the call found them, or as other requests left them
-- before its transaction.
pub process_checkout-IsUntouched :
    (others : Shop → Shop) (now number user : ℕ) (input : CheckoutInput) (header : Option ℕ)
    (s s' : Shop) (r : Result CheckoutAnswer)
    → is_new r ≡ false
    → process_checkout others now number user input header s ≡ (r, s')
    → IsUntouched s s' ⊎ IsUntouched (others (open_cart input user s)) s'
unfolding process_checkout buy
process_checkout-IsUntouched others now number user input header s s' r old h =
    elim (Option-cases (probe (effective_key input header) s.sales)) [
      | inr (sale, found) ↦
          let h' = rw (found, process_checkout) at h in
          let same : s' ≡ s = ground (arith, h') in inl (rw same (unchanged s))
      | inl fresh ↦ elim (Result-cases (resolve_buyer input user s)) [
        | inl (thrown, refused) ↦
            let same : s' ≡ s = sym (ap (λ x. x.1) (rw (fresh, refused, process_checkout) at h)) in
            inl (rw same (unchanged s))
        | inr (buyer, resolved) ↦ buys buyer (rw (fresh, resolved, process_checkout) at h)
      ]
    ]
  where
    buys :
        (buyer : Buyer)
        → buy others now number user input (effective_key input header) buyer s ≡ (r, s')
        → IsUntouched s s' ⊎ IsUntouched (others (open_cart input user s)) s'
    buys buyer h =
        let priced = raw_items input user (open_cart input user s) >>= λ items.
        quote now input.coupon_code user items (open_cart input user s) in
        elim (Result-cases priced) [
          | inl (thrown, refused) ↦
              let same : s' ≡ open_cart input user s =
                sym (ap (λ x. x.1) (rw (refused, buy) at h)) in
              inl (rw same (open_cart-IsUntouched input user s))
          | inr (q, ready) ↦ inr (
              place_order-IsUntouched _ (effective_key input header) q.coupon _ s' r old
                (rw (ready, buy) at h))
        ]
