-- ===== src/Payments/Genuine.antt =====
-- What stands behind a confirmed payment of backend/src/integrations/razorpay/razorpay.service.ts, and
-- what the confirmation does to the order and to the stock.
use text.Mathlib.Text.{◌==◌ as str_eq}
use vedhicfoods.Prelude.{
  ℕ, ◌≡◌, ◌⊎◌, refl, sym, ap, true, ◌&&◌, none, some, List, [], ◌∷◌, arith, inl, inr, Bool-cases,
  Option-cases, ◌==◌, ==_iff,
}
use vedhicfoods.Result.{ok, >>=-eq-ok, Result-cases, ◌>>=◌}
use vedhicfoods.Inventory.State.{Db, ReservationItem, AuditAction}
use vedhicfoods.Inventory.Service.{audited, confirm_deduction}
use vedhicfoods.Inventory.Moves.{keys, demand, Moves, Moves-none, demand-nil}
use vedhicfoods.Inventory.Conservation.{Confirms, Confirms-IsAction, confirm_deduction-Confirms}
use vedhicfoods.Orders.Status.{OrderStatus}
use vedhicfoods.Orders.Store.{reservation_items}
use vedhicfoods.Checkout.Shop.{Shop, Sale, Payment, PaymentStatus, find_sale, update_sale}
use vedhicfoods.Payments.Gateway.{
  Gateway, GatewayPayment, GatewayStatus, is_captured, is_settled, is_of_order, matches,
  find_by_razorpay, find_payment, capture_gate, noted, assert_gateway_payment_matches_record,
}
use vedhicfoods.Payments.Confirming.{
  Outcome, deduct, settle_order, confirm_in_transaction, set_payment, is_known, confirm_payment,
  verify_and_confirm_payment, is_other_payment,
}
use vedhicfoods.Payments.Capturing.{capture_gate-open, find_sale-update}

-- The gateway stands behind the payment of this customer's order.
pub record IsGenuine (gateway : Gateway) (order payment signature user : ℕ) (s : Shop) (sale : Sale)
    : Type 0 where
  pub recorded : Payment
  pub found : find_by_razorpay order s.payments ≡ some recorded
  pub of_sale : find_sale recorded.order s.sales ≡ some sale
  pub own : sale.base.user ≡ user
  pub signed : gateway.is_signed order payment signature ≡ true
  pub known : GatewayPayment
  pub fetched : gateway.fetch payment ≡ some known
  pub settled : known.status ≡ GatewayStatus.captured
  pub same_order : (known.order ≡ none) ⊎ (known.order ≡ some order)
  pub same_amount : known.amount ≡ recorded.amount
  pub same_currency : str_eq known.currency recorded.currency ≡ true

is_settled-captured : (st : GatewayStatus) → is_settled st ≡ true → st ≡ GatewayStatus.captured
is_settled-captured st h = ground arith

-- An answer without an order passes, as it does in the source.
is_of_order-cases :
    (order : ℕ) (g : GatewayPayment)
    → is_of_order order g ≡ true
    → (g.order ≡ none) ⊎ (g.order ≡ some order)
is_of_order-cases order g h = ground arith

matched-cases :
    (gateway : Gateway) (order payment : ℕ) (p : Payment) (s : Shop)
    → (assert_gateway_payment_matches_record gateway order payment p s).0 ≡ ok tt
    → (g : GatewayPayment) × (gateway.fetch payment ≡ some g)
      × (is_settled g.status ≡ true)
      × (is_of_order order g ≡ true)
      × (g.amount ≡ p.amount)
      × (str_eq g.currency p.currency ≡ true)
      × (assert_gateway_payment_matches_record gateway order payment p s ≡ (ok tt, s))
unfolding assert_gateway_payment_matches_record
matched-cases gateway order payment p s e = elim (Option-cases (gateway.fetch payment)) [
  | inl missing ↦ absurd (cc (rw (missing, assert_gateway_payment_matches_record) at e))
  | inr (g, fetched) ↦
      let e' = rw (fetched, assert_gateway_payment_matches_record) at e in
      elim (Bool-cases
        (is_settled g.status && is_of_order order g && matches g.amount g.currency p)) [
          | inr miss ↦ absurd (cc (rw miss at e'))
          | inl hit ↦ (
            g,
            fetched,
            ground arith,
            ground arith,
            ground arith,
            ground arith,
            rw (assert_gateway_payment_matches_record, fetched, hit) refl,
          )
        ]
]

-- The checks before the transaction.
confirm_payment-cases :
    (others : Shop → Shop) (gateway : Gateway) (order payment signature user : ℕ) (p : Payment)
    (sale : Sale) (s s' : Shop)
    → confirm_payment others gateway order payment signature user p sale s
      ≡ (ok Outcome.confirmed, s')
    → (sale.base.user ≡ user)
      × (gateway.is_signed order payment signature ≡ true)
      × ((assert_gateway_payment_matches_record gateway order payment p s).0 ≡ ok tt)
      × (confirm_in_transaction sale payment (others s) ≡ (ok Outcome.confirmed, s'))
unfolding confirm_payment
confirm_payment-cases others gateway order payment signature user p sale s s' e =
    elim (Bool-cases (sale.base.user == user)) [
      | inr other ↦ absurd (cc (rw (confirm_payment, other) at e))
      | inl own ↦ elim (Bool-cases (is_captured p && is_known p)) [
        | inl done ↦ absurd (cc (rw (confirm_payment, own, done) at e))
        | inr waits ↦ elim (Bool-cases (is_other_payment p payment)) [
          | inl other ↦ absurd (cc (rw (confirm_payment, own, waits, other) at e))
          | inr same ↦ elim (Bool-cases (gateway.is_signed order payment signature)) [
            | inr unsigned ↦ absurd (cc (rw (confirm_payment, own, waits, same, unsigned) at e))
            | inl signed ↦
                let e' = rw (confirm_payment, own, waits, same, signed) at e in
                elim (Result-cases
                  (assert_gateway_payment_matches_record gateway order payment p s).0) [
                    | inl (thrown, refused) ↦ absurd (cc (rw refused at e'))
                    | inr (done, matched) ↦
                        let full = (matched-cases gateway order payment p s matched).6 in
                        (
                          (==_iff sale.base.user user).0 own,
                          signed,
                          matched,
                          rw (matched, ap (λ r. r.1) full) at e',
                        )
                  ]
          ]
        ]
      ]
    ]

-- A call of `verifyAndConfirmPayment` that confirms a payment is the customer's own, carries a
-- signature that the gateway's secret made for this order and payment, and the gateway reports the
-- payment as captured, in the currency and the whole amount that were recorded, and names either this
-- order or no order at all.
pub verify_and_confirm_payment-IsGenuine :
    (others : Shop → Shop) (gateway : Gateway) (order payment signature user : ℕ) (s s' : Shop)
    → verify_and_confirm_payment others gateway order payment signature user s
      ≡ (ok Outcome.confirmed, s')
    → (sale : Sale) × IsGenuine gateway order payment signature user s sale
      × (confirm_in_transaction sale payment (others s) ≡ (ok Outcome.confirmed, s'))
unfolding verify_and_confirm_payment
verify_and_confirm_payment-IsGenuine others gateway order payment signature user s s' e =
    elim (Option-cases (find_by_razorpay order s.payments)) [
      | inl missing ↦ absurd (cc (rw (verify_and_confirm_payment, missing) at e))
      | inr (p, found) ↦ elim (Option-cases (find_sale p.order s.sales)) [
        | inl orphan ↦ absurd (cc (rw (verify_and_confirm_payment, found, orphan) at e))
        | inr (sale, of_sale) ↦
            let (own, signed, matched, done) =
              confirm_payment-cases others gateway order payment signature user p sale s s'
                (rw (verify_and_confirm_payment, found, of_sale) at e) in
            let (g, fetched, settled, same_order, same_amount, same_currency, full) =
              matched-cases gateway order payment p s matched in
            (
              sale,
              record {
                recorded = p;
                found = found;
                of_sale = of_sale;
                own = own;
                signed = signed;
                known = g;
                fetched = fetched;
                settled = is_settled-captured g.status settled;
                same_order = is_of_order-cases order g same_order;
                same_amount = same_amount;
                same_currency = same_currency;
              },
              done,
            )
      ]
    ]

-- What a sale has asked of every product is sold out of the reserve.
pub deduct-Confirms :
    (sale : Sale) (db db' : Db)
    → deduct sale db ≡ ok db'
    → Moves Confirms
        (λ i. demand (keys db.products) i (reservation_items sale.base.items))
        db.products
        db'.products
unfolding deduct
deduct-Confirms sale db db' e = go (reservation_items sale.base.items) e
  where
    go :
        (items : List ReservationItem)
        → (elim items [
          | [] ↦ ok db
          | item ∷ rest ↦ confirm_deduction (item ∷ rest) (some sale.base.id) db >>= λ r. ok r.1
        ])
          ≡ ok db'
        → Moves Confirms (λ i. demand (keys db.products) i items) db.products db'.products
    go [] h =
        Moves-none Confirms Confirms-IsAction _ db.products db'.products (ground arith)
          (λ i. demand-nil (keys db.products) i)
    go (item ∷ rest) h =
        let (r, done, end) =
          >>=-eq-ok (confirm_deduction (item ∷ rest) (some sale.base.id) db) _ h in
        let same : db'.products ≡ r.1.products = ground arith in
        rw same (confirm_deduction-Confirms (item ∷ rest) (some sale.base.id) db r.1 r.0 done)

-- A transaction that confirms a payment sells what the order asked out of the reserve, marks the
-- payment captured, and marks the order confirmed and paid, whatever its status was.
pub confirm_in_transaction-Confirms :
    (sale row : Sale) (payment : ℕ) (t s' : Shop)
    → find_sale sale.base.id t.sales ≡ some row
    → confirm_in_transaction sale payment t ≡ (ok Outcome.confirmed, s')
    → Moves Confirms
        (λ i. demand (keys t.db.products) i (reservation_items sale.base.items))
        t.db.products
        s'.db.products
      × ((p : Payment) × (find_payment sale.base.id s'.payments ≡ some p) × (is_captured p ≡ true))
      × (find_sale sale.base.id s'.sales
          ≡ some (set_payment OrderStatus.confirmed PaymentStatus.paid row))
unfolding confirm_in_transaction settle_order noted audited
confirm_in_transaction-Confirms sale row payment t s' found e =
    elim (Option-cases (capture_gate sale.base.id payment t.payments)) [
      | inl closed ↦ absurd (cc (rw (confirm_in_transaction, closed) at e))
      | inr (ps, opened) ↦ elim (Result-cases (deduct sale t.db)) [
        | inl (thrown, refused) ↦
            absurd (cc (rw (confirm_in_transaction, opened, settle_order, refused) at e))
        | inr (db, sold) ↦
            let same : s'
                ≡ noted AuditAction.payment_confirmed sale.base.id (record t {
                  db = db;
                  payments = ps;
                  sales =
                      update_sale sale.base.id
                        (set_payment OrderStatus.confirmed PaymentStatus.paid) t.sales;
                }) =
              sym (ap (λ r. r.1) (rw (confirm_in_transaction, opened, settle_order, sold) at e)) in
            rw same (
              deduct-Confirms sale t.db db sold,
              capture_gate-open sale.base.id payment t.payments ps opened,
              find_sale-update sale.base.id (set_payment OrderStatus.confirmed PaymentStatus.paid)
                  t.sales row (λ x. refl) found,
            )
      ]
    ]
