-- ===== src/Checkout/Stock.antt =====
-- What a checkout of backend/src/services/checkout.service.ts does to the stock.
use vedhicfoods.Prelude.{ℕ, ◌∙◌, ◌≡◌, false, Option, none, some, List, [], ap, arith}
use vedhicfoods.Result.{ok, >>=-eq-ok}
use vedhicfoods.Inventory.State.{Product, Db, AuditAction}
use vedhicfoods.Inventory.Service.{MovedItem, reserve_stock, audited}
use vedhicfoods.Inventory.Moves.{keys, demand, Moves}
use vedhicfoods.Inventory.Conservation.{
  Reserves, Confirms, reserve_stock-Reserves, confirm_deduction-Confirms,
}
use vedhicfoods.Inventory.RoundTrip.{Sells, Moves-both}
use vedhicfoods.Discounts.Service.{Evaluation}
use vedhicfoods.Checkout.Shop.{Shop, Sale, PaymentMethod, reservations}
use vedhicfoods.Checkout.Service.{
  CheckoutInput, create_order, complete_order, confirm_if_cod, use_coupon, process_checkout,
  new_sale, open_cart,
}
use vedhicfoods.Checkout.Outcome.{process_checkout-Placement}

-- What an order takes from a product: a cash-on-delivery order is sold at once, and any other order
-- holds its units until it is paid.
abbrev pub Takes : PaymentMethod → ℕ → Product → Product → Type 0
Takes PaymentMethod.cod n p q = Sells n p q
Takes _ n p q = Reserves n p q

-- The reservation of a new order.
create_order-reserves :
    (sale : Sale) (t opened : Shop)
    → create_order sale t ≡ ok opened
    → (held : List MovedItem × Db) × (reserve_stock (reservations sale.lines) none t.db ≡ ok held)
      × (opened.db ≡ audited AuditAction.order_created (some sale.base.id) held.1)
unfolding create_order
create_order-reserves sale t opened e =
    let (held, reserved, rest) =
      >>=-eq-ok (reserve_stock (reservations sale.lines) none t.db) _ e in
    (held, reserved, ground arith)

complete_order-confirms :
    (sale : Sale) (coupon : Option Evaluation) (opened s' : Shop)
    → complete_order sale coupon opened ≡ ok s'
    → (settled : List MovedItem × Db) × (confirm_if_cod sale
          (audited AuditAction.delivery_created none opened.db)
        ≡ ok settled)
      × (s'.db ≡ settled.1)
unfolding complete_order
complete_order-confirms sale coupon opened s' e =
    let (settled, confirmed, rest) =
      >>=-eq-ok (confirm_if_cod sale (audited AuditAction.delivery_created none opened.db)) _ e in
    let (coupons, used, done) = >>=-eq-ok (use_coupon sale coupon opened.coupons) _ rest in
    (settled, confirmed, ground arith)

held_Reserves :
    (sale : Sale) (db : Db) (held settled : List MovedItem × Db) (first second : Option ℕ)
    → reserve_stock (reservations sale.lines) none db ≡ ok held
    → ok (
      [],
      audited AuditAction.delivery_created first (audited AuditAction.order_created second held.1),
    )
      ≡ ok settled
    → Moves Reserves
        (λ i. demand (keys db.products) i (reservations sale.lines))
        db.products
        settled.1.products
unfolding audited
held_Reserves sale db held settled first second reserved e =
    let same : settled.1.products ≡ held.1.products = ground arith in
    rw same (reserve_stock-Reserves (reservations sale.lines) none db held.1 held.0 reserved)

-- The order's own confirmation follows on its reservation; two audit entries come between.
confirm_if_cod-Takes :
    (method : PaymentMethod) (sale : Sale) (db : Db) (held settled : List MovedItem × Db)
    (first second : Option ℕ)
    → sale.payment_method ≡ method
    → reserve_stock (reservations sale.lines) none db ≡ ok held
    → confirm_if_cod sale (
        audited AuditAction.delivery_created first
          (audited AuditAction.order_created second held.1))
      ≡ ok settled
    → Moves
        (Takes method)
        (λ i. demand (keys db.products) i (reservations sale.lines))
        db.products
        settled.1.products
unfolding confirm_if_cod audited
confirm_if_cod-Takes PaymentMethod.cod sale db held settled first second is_cod reserved confirmed =
    let held_back =
      reserve_stock-Reserves (reservations sale.lines) none db held.1 held.0 reserved in
    let bought =
      confirm_deduction-Confirms (reservations sale.lines) (some sale.base.id) _ settled.1 settled.0
        (rw (is_cod, confirm_if_cod) at confirmed) in
    (
      bought.0 ∙ held_back.0,
      Moves-both Reserves Confirms Sells (λ n p q r h k. omega arith)
          (λ ks i. demand ks i (reservations sale.lines)) db.products held.1.products
          settled.1.products held_back bought,
    )
confirm_if_cod-Takes PaymentMethod.upi sale db held settled first second online reserved confirmed =
    held_Reserves sale db held settled first second reserved
      (rw (online, confirm_if_cod) at confirmed)
confirm_if_cod-Takes PaymentMethod.card sale db held settled first second online reserved
      confirmed =
    held_Reserves sale db held settled first second reserved
      (rw (online, confirm_if_cod) at confirmed)
confirm_if_cod-Takes PaymentMethod.netbanking sale db held settled first second online reserved
      confirmed =
    held_Reserves sale db held settled first second reserved
      (rw (online, confirm_if_cod) at confirmed)
confirm_if_cod-Takes PaymentMethod.razorpay sale db held settled first second online reserved
      confirmed =
    held_Reserves sale db held settled first second reserved
      (rw (online, confirm_if_cod) at confirmed)

-- A checkout that answers with a new order has moved, for every product of the tables that its
-- transaction found, exactly the quantity that the order's lines ask of it: a cash-on-delivery order
-- has sold it, any other order holds it, and the reservations of other orders are unchanged.
pub process_checkout-Takes :
    (others : Shop → Shop) (now number user : ℕ) (input : CheckoutInput) (header : Option ℕ)
    (s s' : Shop) (sale : Sale)
    → process_checkout others now number user input header s
      ≡ (ok (record { sale = sale; is_replay = false }), s')
    → Moves
        (Takes input.payment_method)
        (λ i.
          demand (keys (others (open_cart input user s)).db.products) i (reservations sale.lines))
        (others (open_cart input user s)).db.products
        s'.db.products
process_checkout-Takes others now number user input header s s' sale e =
    let p = process_checkout-Placement others now number user input header s s' sale e in
    let (held, reserved, opened) =
      create_order-reserves sale (others (open_cart input user s)) p.opened p.created in
    let (settled, confirmed, done) =
      complete_order-confirms sale p.price.coupon p.opened s' p.completed in
    let method : sale.payment_method ≡ input.payment_method =
      unfold new_sale in ap (λ (x : Sale). x.payment_method) p.is_sale in
    rw done (
      confirm_if_cod-Takes input.payment_method sale (others (open_cart input user s)).db held
        settled none (some sale.base.id) method reserved (rw opened at confirmed))
