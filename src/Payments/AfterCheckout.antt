-- ===== src/Payments/AfterCheckout.antt =====
-- What happens to the stock of an order that backend/src/services/checkout.service.ts has placed when
-- its payment is confirmed or fails.
use vedhicfoods.Prelude.{
  ℕ, subst, false, ◌+◌, ◌-◌, ◌≡◌, refl, ap, min, Option, some, List, [], ◌∷◌, map, arith, get_elem?,
}
use vedhicfoods.Prelude.Int.{pos}
use vedhicfoods.Result.{ok}
use vedhicfoods.Inventory.State.{Product}
use vedhicfoods.Inventory.Moves.{keys, demand, Moves, At}
use vedhicfoods.Inventory.Conservation.{on_hand, reserved, sold, Reserves, Releases, Confirms}
use vedhicfoods.Inventory.RoundTrip.{Sells, Moves-both}
use vedhicfoods.Orders.Store.{reservation_items}
use vedhicfoods.Checkout.Shop.{
  Shop, Sale, OrderLine, PaymentMethod, same_method, reservations, find_sale,
}
use vedhicfoods.Checkout.Service.{CheckoutInput, new_sale, open_cart, process_checkout}
use vedhicfoods.Checkout.Outcome.{process_checkout-Placement}
use vedhicfoods.Checkout.Stock.{Takes, process_checkout-Takes}
use vedhicfoods.Payments.Confirming.{Outcome, confirm_in_transaction}
use vedhicfoods.Payments.Failing.{commit_failure}
use vedhicfoods.Payments.Genuine.{confirm_in_transaction-Confirms}
use vedhicfoods.Payments.Releasing.{commit_failure-Releases}

reservation_items-map :
    (ls : List OrderLine)
    → reservation_items
        (map (λ (l : OrderLine). record { product = some l.product; quantity = l.quantity }) ls)
      ≡ reservations ls
unfolding reservation_items reservations
reservation_items-map [] = refl
reservation_items-map (l ∷ ls) =
    ap (λ is. record { product = l.product; quantity = pos l.quantity } ∷ is)
      (reservation_items-map ls)

-- The lines that a placed order reserves are those that its rows name.
placed-items :
    (others : Shop → Shop) (now number user : ℕ) (input : CheckoutInput) (header : Option ℕ)
    (s s' : Shop) (sale : Sale)
    → process_checkout others now number user input header s
      ≡ (ok (record { sale = sale; is_replay = false }), s')
    → reservation_items sale.base.items ≡ reservations sale.lines
unfolding new_sale
placed-items others now number user input header s s' sale e =
    let p = process_checkout-Placement others now number user input header s s' sale e in
    rw p.is_sale (reservation_items-map p.price.lines)

Takes-online :
    (method : PaymentMethod)
    → same_method method PaymentMethod.cod ≡ false
    → Takes method ≡ Reserves
Takes-online PaymentMethod.razorpay h = refl
Takes-online PaymentMethod.upi h = refl
Takes-online PaymentMethod.card h = refl
Takes-online PaymentMethod.netbanking h = refl
Takes-online PaymentMethod.cod h = absurd (cc h)

online_held :
    (method : PaymentMethod)
    → same_method method PaymentMethod.cod ≡ false
    → (amount : ℕ → ℕ) (ps qs : List Product) → Moves (Takes method) amount ps qs
    → Moves Reserves amount ps qs
online_held method online amount ps qs =
    subst (λ R. Moves R amount ps qs) (Takes-online method online)

-- A failed cash-on-delivery order keeps its sale, while up to its quantity leaves the reserve.
pub record SellsAndReleases (n : ℕ) (p q : Product) : Type 0 where
  pub taken : on_hand q + n ≡ on_hand p + min (reserved p) n
  pub held : reserved q ≡ reserved p - n
  pub more_sold : sold q ≡ sold p + n

-- An online order that a checkout has placed, and whose payment is then confirmed on a stock that no
-- other request has moved, has sold of every product exactly the quantity that its lines ask, and
-- left the reservations of other orders as they were.
pub process_checkout-confirm :
    (others : Shop → Shop) (now number user payment : ℕ) (input : CheckoutInput) (header : Option ℕ)
    (s s' t t' : Shop) (sale row : Sale)
    → same_method input.payment_method PaymentMethod.cod ≡ false
    → process_checkout others now number user input header s
      ≡ (ok (record { sale = sale; is_replay = false }), s')
    → t.db.products ≡ s'.db.products
    → find_sale sale.base.id t.sales ≡ some row
    → confirm_in_transaction sale payment t ≡ (ok Outcome.confirmed, t')
    → (i : ℕ)
    → At Sells
        (demand (keys (others (open_cart input user s)).db.products) i (reservations sale.lines))
        (get_elem? (others (open_cart input user s)).db.products i)
        (get_elem? t'.db.products i)
unfolding open_cart
process_checkout-confirm others now number user payment input header s s' t t' sale row online e
      same found e' =
    let held = process_checkout-Takes others now number user input header s s' sale e in
    let (bought, captured, confirmed) =
      confirm_in_transaction-Confirms sale row payment t t' found e' in
    let lines = placed-items others now number user input header s s' sale e in
    Moves-both Reserves Confirms Sells (λ n p q r h k. omega arith)
      (λ ks i. demand ks i (reservations sale.lines)) (others (open_cart input user s)).db.products
      s'.db.products t'.db.products
      (online_held input.payment_method online
        (λ i.
          demand (keys (others (open_cart input user s)).db.products) i (reservations sale.lines))
        (others (open_cart input user s)).db.products s'.db.products held)
      (rw (same, lines) at bought)

-- A cash-on-delivery order that a checkout has placed, and that `failPayment` then marks failed on a
-- stock that no other request has moved, still counts as sold, and takes up to its quantity out of
-- the reservations of other orders, back to the shelf.
pub process_checkout-fail :
    (others : Shop → Shop) (now number user : ℕ) (input : CheckoutInput) (header : Option ℕ)
    (s s' t t' : Shop) (sale row : Sale)
    → input.payment_method ≡ PaymentMethod.cod
    → process_checkout others now number user input header s
      ≡ (ok (record { sale = sale; is_replay = false }), s')
    → t.db.products ≡ s'.db.products
    → find_sale sale.base.id t.sales ≡ some row
    → commit_failure sale t ≡ (200, t')
    → (i : ℕ)
    → At SellsAndReleases
        (demand (keys (others (open_cart input user s)).db.products) i (reservations sale.lines))
        (get_elem? (others (open_cart input user s)).db.products i)
        (get_elem? t'.db.products i)
unfolding open_cart
process_checkout-fail others now number user input header s s' t t' sale row is_cod e same found
      e' =
    let bought = process_checkout-Takes others now number user input header s s' sale e in
    let (released, failed) = commit_failure-Releases sale row t t' found e' in
    let lines = placed-items others now number user input header s s' sale e in
    Moves-both Sells Releases SellsAndReleases (λ n p q r h k. omega arith)
      (λ ks i. demand ks i (reservations sale.lines)) (others (open_cart input user s)).db.products
      s'.db.products t'.db.products (rw is_cod at bought) (rw (same, lines) at released)
