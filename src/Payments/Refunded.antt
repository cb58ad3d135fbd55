-- ===== src/Payments/Refunded.antt =====
-- The refunds of backend/src/integrations/razorpay/razorpay.service.ts.
use vedhicfoods.Prelude.{
  ℕ, ◌≡◌, ◌≤◌, ◌<◌, refl, sym, ap, ◌∙◌, subst, Bool, true, false, Option, none, some, arith, inl,
  inr, if◌then◌else◌, Option-cases, leb,
}
use vedhicfoods.Result.{ok, err, bad_request, Result-cases}
use vedhicfoods.Checkout.Shop.{Shop, Payment, PaymentRecordStatus}
use vedhicfoods.Payments.Gateway.{Gateway, is_captured, find_payment, noted}
use vedhicfoods.Prelude.Double.{add, hundredths}
use vedhicfoods.Checkout.Rounding.{max_paise}
use vedhicfoods.Payments.Paise.{paise_of-hundredths, paise_of-le}
use vedhicfoods.Payments.Refunds.{
  paise_of, tolerance, Refund, check_refund, record_refund, refund_payment,
}
use vedhicfoods.Payments.Capturing.{find_payment-update}

-- What a refund that is sent to the gateway rests on.
pub record IsRefundable (amount : Option ℕ) (found : Option Payment) (payment asked : ℕ)
    (is_full : Bool) : Type 0 where
  pub row : Payment
  pub is_row : found ≡ some row
  pub captured : is_captured row ≡ true
  pub known : row.razorpay_payment ≡ some payment
  pub some_money : 0 < asked
  pub covered : asked ≤ add (hundredths row.amount) tolerance
  pub full : is_full ≡ leb (paise_of (hundredths row.amount)) (paise_of asked)

check_refund-IsRefundable :
    (amount : Option ℕ) (found : Option Payment) (payment asked : ℕ) (is_full : Bool)
    → check_refund amount found ≡ ok (payment, asked, is_full)
    → IsRefundable amount found payment asked is_full
unfolding check_refund
check_refund-IsRefundable amount none payment asked is_full e = cc
check_refund-IsRefundable amount (some p) payment asked is_full e =
    elim (Option-cases p.razorpay_payment) [
      | inl unknown ↦ absurd (ground (arith, rw (check_refund, unknown) at e))
      | inr (known, named) ↦
          let e' = rw (check_refund, named) at e in
          record {
            row = p;
            is_row = refl;
            captured = ground arith;
            known = ground arith;
            some_money = ground arith;
            covered = ground arith;
            full = ground arith;
          }
    ]

-- The payment after a refund that no other request interleaves with.
record_refund-payment :
    (order : ℕ) (is_full : Bool) (t : Shop) (p : Payment)
    → find_payment order t.payments ≡ some p
    → find_payment order (record_refund order is_full t).payments
      ≡ some (record p {
        status = if is_full then PaymentRecordStatus.refunded else PaymentRecordStatus.captured;
      })
unfolding record_refund noted
record_refund-payment order is_full t p found =
    find_payment-update order _ t.payments p (λ x. refl) found

refund_payment-cases :
    (others : Shop → Shop) (gateway : Gateway) (order : ℕ) (amount : Option ℕ) (s s' : Shop)
    (r : Refund)
    → refund_payment others gateway order amount s ≡ (ok r, s')
    → (payment : ℕ) × (is_full : Bool) × (check_refund amount (find_payment order s.payments)
        ≡ ok (payment, r.amount, is_full))
      × (gateway.refund payment (paise_of r.amount) ≡ some r.refund)
      × (s' ≡ record_refund order is_full (others s))
unfolding refund_payment
refund_payment-cases others gateway order amount s s' r e =
    elim (Result-cases (check_refund amount (find_payment order s.payments))) [
      | inl (thrown, refused) ↦ absurd (cc (rw (refund_payment, refused) at e))
      | inr ((payment, asked, is_full), allowed) ↦
          let e' = rw (refund_payment, allowed) at e in
          elim (Option-cases (gateway.refund payment (paise_of asked))) [
            | inl failed ↦ absurd (cc (rw failed at e'))
            | inr (refund, sent) ↦
                let h = rw sent at e' in
                let same : r ≡ record { order = order; refund = refund; amount = asked } =
                  cc (ap (λ x. x.0) h) in
                (payment, is_full, rw same allowed, rw same sent, sym (ap (λ x. x.1) h))
          ]
    ]

captured_status : (p : Payment) → is_captured p ≡ true → p.status ≡ PaymentRecordStatus.captured
captured_status p h = go p.status refl
  where
    go : (st : PaymentRecordStatus) → p.status ≡ st → st ≡ PaymentRecordStatus.captured
    go PaymentRecordStatus.captured e = refl
    go PaymentRecordStatus.pending e = absurd (cc (rw e at h))
    go PaymentRecordStatus.authorized e = absurd (cc (rw e at h))
    go PaymentRecordStatus.failed e = absurd (cc (rw e at h))
    go PaymentRecordStatus.refunded e = absurd (cc (rw e at h))

-- A refund that the service reports, of a payment recorded with less than ten thousand million rupees,
-- was asked of the gateway for a payment with status CAPTURED under its gateway id, and the gateway
-- answered, with the refund's id or without one. The reported amount is positive, and in whole paise,
-- as it was asked of the gateway, it is at most the recorded amount.
pub refund_payment-IsRefundable :
    (others : Shop → Shop) (gateway : Gateway) (order : ℕ) (amount : Option ℕ) (s s' : Shop)
    (r : Refund) (p : Payment)
    → find_payment order s.payments ≡ some p
    → p.amount < max_paise
    → refund_payment others gateway order amount s ≡ (ok r, s')
    → (payment : ℕ) × (p.status ≡ PaymentRecordStatus.captured)
      × (p.razorpay_payment ≡ some payment)
      × (0 < r.amount)
      × (paise_of r.amount ≤ p.amount)
      × (gateway.refund payment (paise_of r.amount) ≡ some r.refund)
refund_payment-IsRefundable others gateway order amount s s' r p found small e =
    let (payment, is_full, allowed, sent, same) =
      refund_payment-cases others gateway order amount s s' r e in
    let rests =
      check_refund-IsRefundable amount (find_payment order s.payments) payment r.amount is_full
        allowed in
    let own : rests.row ≡ p = cc (rests.is_row, found) in
    let covered : r.amount ≤ add (hundredths p.amount) tolerance =
      subst (λ (x : Payment). r.amount ≤ add (hundredths x.amount) tolerance) own rests.covered in
    (
      payment,
      captured_status p (rw own at rests.captured),
      subst (λ (x : Payment). x.razorpay_payment ≡ some payment) own rests.known,
      rests.some_money,
      paise_of-le r.amount p.amount small covered,
      sent,
    )

-- A payment that is not captured is not refunded.
uncaptured-refused :
    (others : Shop → Shop) (gateway : Gateway) (order : ℕ) (amount : Option ℕ) (t : Shop)
    (q : Payment)
    → find_payment order t.payments ≡ some q
    → is_captured q ≡ false
    → refund_payment others gateway order amount t ≡ (err bad_request, t)
unfolding refund_payment check_refund
uncaptured-refused others gateway order amount t q found waits =
    rw (refund_payment, check_refund, found, waits) refl

-- A refund of a payment recorded with less than ten thousand million rupees, with no other request in
-- between: if its amount in whole paise is the recorded one, every later refund of the order is
-- refused; if it is less, the payment is as it was, so that later refunds are again allowed up to the
-- whole amount.
pub refund_payment-refund_payment :
    (gateway gateway' : Gateway) (others : Shop → Shop) (order : ℕ) (amount amount' : Option ℕ)
    (s s' : Shop) (r : Refund) (p : Payment)
    → refund_payment (λ x. x) gateway order amount s ≡ (ok r, s')
    → find_payment order s.payments ≡ some p
    → p.amount < max_paise
    → (paise_of r.amount ≡ p.amount
        → refund_payment others gateway' order amount' s' ≡ (err bad_request, s'))
      × (paise_of r.amount < p.amount → find_payment order s'.payments ≡ some p)
refund_payment-refund_payment gateway gateway' others order amount amount' s s' r p e found small =
    let (payment, is_full, allowed, sent, same) =
      refund_payment-cases (λ x. x) gateway order amount s s' r e in
    let rests =
      check_refund-IsRefundable amount (find_payment order s.payments) payment r.amount is_full
        allowed in
    let own : rests.row ≡ p = cc (rests.is_row, found) in
    let after = record_refund-payment order is_full s p found in
    let row_after : find_payment order s'.payments
        ≡ some (record p {
          status = if is_full then PaymentRecordStatus.refunded else PaymentRecordStatus.captured;
        }) =
      rw same after in
    let full : is_full ≡ leb p.amount (paise_of r.amount) =
      rests.full
      ∙ ap (λ (x : Payment). leb (paise_of (hundredths x.amount)) (paise_of r.amount)) own
      ∙ ap (λ n. leb n (paise_of r.amount)) (paise_of-hundredths p.amount small) in
    let captured = captured_status p (rw own at rests.captured) in
    (
      λ whole.
          let closed : is_full ≡ true = ground arith in
          uncaptured-refused others gateway' order amount' s' _ row_after (rw closed refl),
      λ part.
          let partial : is_full ≡ false = ground arith in
          rw row_after (rw partial (ap (λ st. some (record p { status = st })) (sym captured))),
    )
