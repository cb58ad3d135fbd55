-- ===== src/Payments/Releasing.antt =====
-- What the failures of a payment do to the stock: `handlePaymentFailed` of
-- backend/src/integrations/razorpay/razorpay.service.ts and `failPayment` of
-- backend/src/controllers/order.controller.ts.
use vedhicfoods.Prelude.{
  ℕ, ◌+◌, ◌≡◌, refl, sym, ap, ◌∙◌, ◌⊎◌, true, false, min, some, List, [], ◌∷◌, arith, inl, inr,
  Bool-cases, ◌==◌, get_elem?,
}
use vedhicfoods.Result.{ok, >>=-eq-ok, Result-cases, ◌>>=◌}
use vedhicfoods.Inventory.State.{Db, Product, ReservationItem, AuditAction}
use vedhicfoods.Inventory.Service.{audited, release_reservation}
use vedhicfoods.Inventory.Moves.{keys, demand, Moves, Moves-none, demand-nil, At}
use vedhicfoods.Inventory.Conservation.{
  on_hand, reserved, sold, Releases, Releases-IsAction, release_reservation-Releases,
}
use vedhicfoods.Inventory.RoundTrip.{Moves-both}
use vedhicfoods.Orders.Status.{OrderStatus, same_status}
use vedhicfoods.Orders.Store.{reservation_items}
use vedhicfoods.Orders.Handlers.{status_code}
use vedhicfoods.Cart.Store.{same_key}
use vedhicfoods.Checkout.Shop.{
  Shop, Sale, Payment, PaymentStatus, PaymentRecordStatus, find_sale, update_sale,
}
use vedhicfoods.Payments.Gateway.{
  is_captured, find_by_razorpay, find_payment, update_payment, capture_gate, noted, matches,
}
use vedhicfoods.Payments.Confirming.{set_payment}
use vedhicfoods.Payments.Webhook.{
  CapturedWebhookEntity, release_lines, fail_in_transaction, is_paid, with_payment,
  handle_payment_failed, handle_payment_captured, capture_in_transaction,
}
use vedhicfoods.Payments.Failing.{fail_uncaptured, commit_failure}
use vedhicfoods.Payments.Capturing.{find_sale-update, capture_gate-open}

release_lines-Releases :
    (sale : Sale) (db db' : Db)
    → release_lines sale db ≡ ok db'
    → Moves Releases
        (λ i. demand (keys db.products) i (reservation_items sale.base.items))
        db.products
        db'.products
unfolding release_lines
release_lines-Releases sale db db' e = go (reservation_items sale.base.items) e
  where
    go :
        (items : List ReservationItem)
        → (elim items [
          | [] ↦ ok db
          | item ∷ rest ↦ release_reservation (item ∷ rest) (some sale.base.id) db >>= λ r. ok r.1
        ])
          ≡ ok db'
        → Moves Releases (λ i. demand (keys db.products) i items) db.products db'.products
    go [] h =
        Moves-none Releases Releases-IsAction _ db.products db'.products (ground arith)
          (λ i. demand-nil (keys db.products) i)
    go (item ∷ rest) h =
        let (r, done, end) =
          >>=-eq-ok (release_reservation (item ∷ rest) (some sale.base.id) db) _ h in
        let same : db'.products ≡ r.1.products = ground arith in
        rw same (release_reservation-Releases (item ∷ rest) (some sale.base.id) db r.1 r.0 done)

-- The tables after the transaction of a failure.
failed_tables : Sale → Db → Shop → Shop
failed_tables sale db t = noted AuditAction.payment_failed sale.base.id (record t {
  db = db;
  payments =
      update_payment sale.base.id (λ p. record p { status = PaymentRecordStatus.failed })
        t.payments;
  sales =
      update_sale sale.base.id (set_payment OrderStatus.payment_failed PaymentStatus.failed)
        t.sales;
})

-- A failed attempt on a payment that is neither captured nor paid releases the lines of its order.
handle_payment_failed-cases :
    (order : ℕ) (p : Payment) (sale : Sale) (others : Shop → Shop) (s s' : Shop)
    → find_by_razorpay order s.payments ≡ some p
    → find_sale p.order s.sales ≡ some sale
    → is_captured p ≡ false
    → is_paid sale ≡ false
    → handle_payment_failed others order s ≡ (ok tt, s')
    → (db : Db) × (release_lines sale (others s).db ≡ ok db)
      × (s' ≡ failed_tables sale db (others s))
unfolding handle_payment_failed with_payment fail_in_transaction failed_tables
handle_payment_failed-cases order p sale others s s' found of_sale uncaptured unpaid e =
    let e' = rw (handle_payment_failed, with_payment, found, of_sale, uncaptured, unpaid) at e in
    elim (Result-cases (release_lines sale (others s).db)) [
      | inl (thrown, refused) ↦ absurd (cc (rw (fail_in_transaction, refused) at e'))
      | inr (db, released) ↦
          (db, released, sym (ap (λ r. r.1) (rw (fail_in_transaction, released) at e')))
    ]

pub find_sale-id : (id : ℕ) (ss : List Sale) (s : Sale) → find_sale id ss ≡ some s → s.base.id ≡ id
unfolding find_sale
find_sale-id id [] s e = cc
find_sale-id id (q ∷ ss) s e = elim (Bool-cases (q.base.id == id)) [
  | inl hit ↦ ground (arith, rw hit at e)
  | inr miss ↦ find_sale-id id ss s (rw miss at e)
]

-- The gateway's order still finds its payment after a write that leaves the order in place.
find_by_razorpay-update :
    (key order : ℕ) (change : Payment → Payment) (ps : List Payment) (p : Payment)
    → ((x : Payment) → (change x).razorpay_order ≡ x.razorpay_order)
    → find_by_razorpay key ps ≡ some p
    → (q : Payment) × (find_by_razorpay key (update_payment order change ps) ≡ some q)
      × ((q ≡ p) ⊎ (q ≡ change p))
unfolding find_by_razorpay update_payment
find_by_razorpay-update key order change [] p keeps e = cc
find_by_razorpay-update key order change (x ∷ ps) p keeps e =
    let still = ap (λ o. same_key o (some key)) (keeps x) in
    elim (Bool-cases (x.order == order)) [
      | inl write ↦ elim (Bool-cases (same_key x.razorpay_order (some key))) [
        | inl hit ↦ (
          change x,
          rw (update_payment, write, find_by_razorpay, still ∙ hit) refl,
          inr (ap change (ground (arith, rw hit at e))),
        )
        | inr miss ↦
            (p, rw (update_payment, write, find_by_razorpay, still ∙ miss) (rw miss at e), inl refl)
      ]
      | inr skip ↦ elim (Bool-cases (same_key x.razorpay_order (some key))) [
        | inl hit ↦ (
          x,
          rw (update_payment, skip, find_by_razorpay, hit) refl,
          inl (ground (arith, rw hit at e)),
        )
        | inr miss ↦
            let (q, found, which) =
              find_by_razorpay-update key order change ps p keeps (rw miss at e) in
            (q, rw (update_payment, skip, find_by_razorpay, miss) found, which)
      ]
    ]

-- Two releases of `n` units give back up to `2 * n` of what is held.
pub record ReleasesTwice (n : ℕ) (p q : Product) : Type 0 where
  pub back : on_hand q ≡ on_hand p + min (reserved p) (n + n)
  pub same_sold : sold q ≡ sold p

twice_released :
    (sale : Sale) (s s' s'' : Shop) (db db' : Db)
    → release_lines sale s.db ≡ ok db
    → s' ≡ failed_tables sale db s
    → release_lines (set_payment OrderStatus.payment_failed PaymentStatus.failed sale) s'.db
      ≡ ok db'
    → s'' ≡ failed_tables (set_payment OrderStatus.payment_failed PaymentStatus.failed sale) db' s'
    → (i : ℕ)
    → At ReleasesTwice
        (demand (keys s.db.products) i (reservation_items sale.base.items))
        (get_elem? s.db.products i)
        (get_elem? s''.db.products i)
unfolding failed_tables noted audited
twice_released sale s s' s'' db db' released same released' same' =
    let row = set_payment OrderStatus.payment_failed PaymentStatus.failed sale in
    rw same' (
      Moves-both Releases Releases ReleasesTwice (λ n p q r h k. omega arith)
        (λ ks i. demand ks i (reservation_items sale.base.items)) s.db.products
        (failed_tables sale db s).db.products db'.products
        (release_lines-Releases sale s.db db released)
        (release_lines-Releases row (failed_tables sale db s).db db' (rw same at released')))

-- Where the recorded payment is not captured and its order is not paid, two `payment.failed` events for
-- the same order of the gateway that both succeed, with nothing in between, release the order's lines
-- twice: each product gets back up to twice the quantity asked of it, out of whatever is held, the
-- reservations of other orders included.
pub handle_payment_failed-handle_payment_failed :
    (order : ℕ) (p : Payment) (sale : Sale) (s s' s'' : Shop)
    → find_by_razorpay order s.payments ≡ some p
    → find_sale p.order s.sales ≡ some sale
    → is_captured p ≡ false
    → is_paid sale ≡ false
    → handle_payment_failed (λ x. x) order s ≡ (ok tt, s')
    → handle_payment_failed (λ x. x) order s' ≡ (ok tt, s'')
    → (i : ℕ)
    → At ReleasesTwice
        (demand (keys s.db.products) i (reservation_items sale.base.items))
        (get_elem? s.db.products i)
        (get_elem? s''.db.products i)
unfolding failed_tables noted audited
handle_payment_failed-handle_payment_failed order p sale s s' s'' found of_sale uncaptured unpaid e
      e' =
    let own : sale.base.id ≡ p.order = find_sale-id p.order s.sales sale of_sale in
    let (db, released, same) =
      handle_payment_failed-cases order p sale (λ x. x) s s' found of_sale uncaptured unpaid e in
    let fail = λ (x : Payment). record x { status = PaymentRecordStatus.failed } in
    let (q, found', which) =
      find_by_razorpay-update order sale.base.id fail s.payments p (λ x. refl) found in
    let kept : q.order ≡ p.order = ground (arith, which) in
    let uncaptured' : is_captured q ≡ false = ground (arith, which) in
    let row = set_payment OrderStatus.payment_failed PaymentStatus.failed sale in
    let of_sale' : find_sale q.order s'.sales ≡ some row =
      rw (same, kept ∙ sym own)
        (find_sale-update sale.base.id (set_payment OrderStatus.payment_failed PaymentStatus.failed)
          s.sales sale (λ x. refl) (rw (sym own) at of_sale)) in
    let (db', released', same') =
      handle_payment_failed-cases order q row (λ x. x) s' s'' (rw same found') of_sale' uncaptured'
        refl e' in
    twice_released sale s s' s'' db db' released same released' same'

-- After a failed attempt, the capture of a later attempt, for the recorded amount and currency, takes
-- the money and no more: the payment is marked captured, while the order, which no longer waits for
-- its payment, and the stock stay as they were.
pub handle_payment_captured-strands :
    (entity : CapturedWebhookEntity) (p : Payment) (sale : Sale) (s : Shop)
    → find_by_razorpay entity.order s.payments ≡ some p
    → find_sale p.order s.sales ≡ some sale
    → find_payment sale.base.id s.payments ≡ some p
    → is_captured p ≡ false
    → matches entity.amount entity.currency p ≡ true
    → same_status sale.base.status OrderStatus.pending_payment ≡ false
    → (s' : Shop) × (handle_payment_captured (λ x. x) entity s ≡ (ok tt, s'))
      × ((q : Payment) × (find_payment sale.base.id s'.payments ≡ some q) × (is_captured q ≡ true))
      × (s'.sales ≡ s.sales)
      × (s'.db.products ≡ s.db.products)
unfolding noted audited handle_payment_captured with_payment capture_in_transaction capture_gate
handle_payment_captured-strands entity p sale s found of_sale own uncaptured matched waits =
    let paid = λ (x : Payment). record x {
      status = PaymentRecordStatus.captured;
      razorpay_payment = some entity.id;
    } in
    let ps = update_payment sale.base.id paid s.payments in
    let opened : capture_gate sale.base.id entity.id s.payments ≡ some ps =
      rw (capture_gate, own, uncaptured) refl in
    (
      noted AuditAction.payment_confirmed sale.base.id (record s { payments = ps }),
      rw
          (
            handle_payment_captured, with_payment, found, of_sale, uncaptured, matched,
            capture_in_transaction, opened, waits,
          )
          refl,
      capture_gate-open sale.base.id entity.id s.payments ps opened,
      refl,
      refl,
    )

-- The transaction of `failPayment` releases the lines of the order, whatever the order had done with
-- its stock, and marks it failed.
pub commit_failure-Releases :
    (sale row : Sale) (s s' : Shop)
    → find_sale sale.base.id s.sales ≡ some row
    → commit_failure sale s ≡ (200, s')
    → Moves Releases
        (λ i. demand (keys s.db.products) i (reservation_items sale.base.items))
        s.db.products
        s'.db.products
      × (find_sale sale.base.id s'.sales
          ≡ some (set_payment OrderStatus.failed PaymentStatus.failed row))
unfolding commit_failure noted audited
commit_failure-Releases sale row s s' found e =
    elim (Result-cases
      (release_reservation (reservation_items sale.base.items) (some sale.base.id) s.db)) [
        | inl (thrown, refused) ↦
            let status : status_code thrown ≡ 200 =
              ap (λ r. r.0) (rw (commit_failure, refused) at e) in
            absurd (unfold status_code in ground (arith, status))
        | inr (r, released) ↦
            let same : s'
                ≡ noted AuditAction.order_payment_failed sale.base.id (record s {
                  db = r.1;
                  payments = fail_uncaptured sale.base.id s.payments;
                  sales =
                      update_sale sale.base.id (set_payment OrderStatus.failed PaymentStatus.failed)
                        s.sales;
                }) =
              sym (ap (λ r. r.1) (rw (commit_failure, released) at e)) in
            rw same (
              release_reservation-Releases (reservation_items sale.base.items) (some sale.base.id)
                  s.db r.1 r.0 released,
              find_sale-update sale.base.id (set_payment OrderStatus.failed PaymentStatus.failed)
                  s.sales row (λ x. refl) found,
            )
      ]
