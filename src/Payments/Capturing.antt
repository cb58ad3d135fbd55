-- ===== src/Payments/Capturing.antt =====
-- A payment of backend/src/integrations/razorpay/razorpay.service.ts is captured at most once, by
-- whichever of its two paths comes first.
use vedhicfoods.Prelude.{
  ℕ, ◌⊎◌, ◌≡◌, ◌≢◌, refl, ap, ◌∙◌, true, none, some, List, [], ◌∷◌, arith, inl, inr, Bool-cases,
  Option-cases, ◌==◌,
}
use vedhicfoods.Result.{ok, >>=-eq-ok, Result-cases}
use vedhicfoods.Orders.Status.{OrderStatus, same_status}
use vedhicfoods.Checkout.Shop.{Shop, Sale, Payment, PaymentRecordStatus, find_sale, update_sale}
use vedhicfoods.Payments.Gateway.{is_captured, find_payment, update_payment, capture_gate, noted}
use vedhicfoods.Payments.Confirming.{deduct, settle_order, confirm_in_transaction}
use vedhicfoods.Payments.Webhook.{capture_in_transaction}

-- A write to a payment shows when it is read.
pub find_payment-update :
    (order : ℕ) (change : Payment → Payment) (ps : List Payment) (p : Payment)
    → ((x : Payment) → (change x).order ≡ x.order)
    → find_payment order ps ≡ some p
    → find_payment order (update_payment order change ps) ≡ some (change p)
unfolding find_payment update_payment
find_payment-update order change [] p keeps e = cc
find_payment-update order change (q ∷ ps) p keeps e = elim (Bool-cases (q.order == order)) [
  | inl hit ↦
      let same : q ≡ p = ground (arith, rw hit at e) in
      let still : ((change q).order == order) ≡ true = ap (λ n. n == order) (keeps q) ∙ hit in
      rw (update_payment, hit, find_payment, still) (ap (λ x. some (change x)) same)
  | inr miss ↦
      rw (update_payment, miss, find_payment, miss)
        (find_payment-update order change ps p keeps (rw miss at e))
]

-- The same of an order.
pub find_sale-update :
    (id : ℕ) (change : Sale → Sale) (ss : List Sale) (s : Sale)
    → ((x : Sale) → (change x).base.id ≡ x.base.id)
    → find_sale id ss ≡ some s
    → find_sale id (update_sale id change ss) ≡ some (change s)
unfolding find_sale update_sale
find_sale-update id change [] s keeps e = cc
find_sale-update id change (q ∷ ss) s keeps e = elim (Bool-cases (q.base.id == id)) [
  | inl hit ↦
      let same : q ≡ s = ground (arith, rw hit at e) in
      let still : ((change q).base.id == id) ≡ true = ap (λ n. n == id) (keeps q) ∙ hit in
      rw (update_sale, hit, find_sale, still) (ap (λ x. some (change x)) same)
  | inr miss ↦
      rw (update_sale, miss, find_sale, miss) (find_sale-update id change ss s keeps (rw miss at e))
]

-- The gate is closed on a captured payment, and opens on no other twice.
capture_gate-closed :
    (order payment : ℕ) (ps : List Payment) (p : Payment)
    → find_payment order ps ≡ some p
    → is_captured p ≡ true
    → capture_gate order payment ps ≡ none
unfolding capture_gate
capture_gate-closed order payment ps p found captured = rw (capture_gate, found, captured) refl

pub capture_gate-open :
    (order payment : ℕ) (ps qs : List Payment)
    → capture_gate order payment ps ≡ some qs
    → (p : Payment) × (find_payment order qs ≡ some p) × (is_captured p ≡ true)
unfolding capture_gate
capture_gate-open order payment ps qs e = elim (Option-cases (find_payment order ps)) [
  | inl missing ↦ absurd (cc (rw (missing, capture_gate) at e))
  | inr (p, found) ↦
      let e' = rw (found, capture_gate) at e in
      elim (Bool-cases (is_captured p)) [
        | inl captured ↦ absurd (cc (rw captured at e'))
        | inr uncaptured ↦
            let paid = λ (x : Payment). record x {
              status = PaymentRecordStatus.captured;
              razorpay_payment = some payment;
            } in
            let written : qs ≡ update_payment order paid ps = ground (arith, rw uncaptured at e') in
            (paid p, rw written (find_payment-update order paid ps p (λ x. refl) found), refl)
      ]
]

pub data CapturePath : Type 0 where
  by_signature by_webhook : CapturePath

-- The tables after the transaction of a path.
abbrev pub capture : CapturePath → Sale → ℕ → Shop → Shop
capture by_signature sale payment t = (confirm_in_transaction sale payment t).1
capture by_webhook sale payment t = (capture_in_transaction sale payment t).1

-- What a closed gate leaves.
capture-closed :
    (path : CapturePath) (sale : Sale) (payment : ℕ) (t : Shop)
    → capture_gate sale.base.id payment t.payments ≡ none
    → capture path sale payment t ≡ t
unfolding confirm_in_transaction capture_in_transaction
capture-closed by_signature sale payment t closed =
    rw (capture, confirm_in_transaction, closed) refl
capture-closed by_webhook sale payment t closed = rw (capture, capture_in_transaction, closed) refl

settle_order-payments :
    (sale : Sale) (payments : List Payment) (t t' : Shop)
    → settle_order sale payments t ≡ ok t'
    → t'.payments ≡ payments
unfolding settle_order
settle_order-payments sale payments t t' e =
    let (db, sold, done) = >>=-eq-ok (deduct sale t.db) _ e in ground arith

-- After a transaction the payment is captured, or nothing has changed.
capture_cases :
    (path : CapturePath) (sale : Sale) (payment : ℕ) (t : Shop)
    → (capture path sale payment t ≡ t)
      ⊎ ((ps : List Payment) × (capture_gate sale.base.id payment t.payments ≡ some ps)
          × ((capture path sale payment t).payments ≡ ps))
unfolding confirm_in_transaction capture_in_transaction noted
capture_cases by_signature sale payment t =
    elim (Option-cases (capture_gate sale.base.id payment t.payments)) [
      | inl closed ↦ inl (capture-closed by_signature sale payment t closed)
      | inr (ps, opened) ↦ elim (Result-cases (settle_order sale ps t)) [
        | inl (e, refused) ↦ inl (rw (capture, confirm_in_transaction, opened, refused) refl)
        | inr (t', settled) ↦ inr (
          ps,
          opened,
          rw (capture, confirm_in_transaction, opened, settled)
              (settle_order-payments sale ps t t' settled),
        )
      ]
    ]
capture_cases by_webhook sale payment t =
    elim (Option-cases (capture_gate sale.base.id payment t.payments)) [
      | inl closed ↦ inl (capture-closed by_webhook sale payment t closed)
      | inr (ps, opened) ↦
          elim (Bool-cases (same_status sale.base.status OrderStatus.pending_payment)) [
            | inr other ↦ inr (ps, opened, rw (capture, capture_in_transaction, opened, other) refl)
            | inl waiting ↦ elim (Result-cases (settle_order sale ps t)) [
              | inl (e, refused) ↦
                  inl (rw (capture, capture_in_transaction, opened, waiting, refused) refl)
              | inr (t', settled) ↦ inr (
                ps,
                opened,
                rw (capture, capture_in_transaction, opened, waiting, settled)
                    (settle_order-payments sale ps t t' settled),
              )
            ]
          ]
    ]

-- Once a transaction of either path has changed anything for an order, no later transaction of either
-- path for that order changes anything, whatever its request has read and whichever payment of the
-- gateway it names, as long as the payment of the order stays as the first has left it.
pub capture-capture :
    (path path' : CapturePath) (sale sale' : Sale) (payment payment' : ℕ) (t t' : Shop)
    → sale'.base.id ≡ sale.base.id
    → capture path sale payment t ≢ t
    → find_payment sale.base.id t'.payments
      ≡ find_payment sale.base.id (capture path sale payment t).payments
    → capture path' sale' payment' t' ≡ t'
capture-capture path path' sale sale' payment payment' t t' same_order changed kept =
    elim (capture_cases path sale payment t) [
      | inl idle ↦ absurd (changed idle)
      | inr (ps, opened, written) ↦
          let (p, found, captured) = capture_gate-open sale.base.id payment t.payments ps opened in
          capture-closed path' sale' payment' t' (
            rw same_order (
              capture_gate-closed sale.base.id payment' t'.payments p
                (kept ∙ ap (find_payment sale.base.id) written ∙ found) captured))
    ]
