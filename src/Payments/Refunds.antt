-- ===== src/Payments/Refunds.antt =====
-- backend/src/integrations/razorpay/razorpay.service.ts: `refundPayment` for an order, as
-- backend/src/controllers/order.controller.ts calls it. The amount of a refund is a binary number
-- of rupees, counted as in Prelude.Double; those that are not finite or not positive are all
-- refused alike, and zero stands for them.
use vedhicfoods.Prelude.{ℕ, ◌*◌, Bool, Option, none, some, ltb, leb, if◌then◌else◌}
use vedhicfoods.Prelude.Double.{nearest, add, round, hundredths}
use vedhicfoods.Result.{Result, ok, err, bad_request, not_found, database, require, ◌>>=◌, ◌>>◌}
use vedhicfoods.Inventory.State.{AuditAction}
use vedhicfoods.Checkout.Shop.{Shop, Payment, PaymentStatus, PaymentRecordStatus, update_sale}
use vedhicfoods.Discounts.Service.{or_throw}
use vedhicfoods.Payments.Gateway.{Gateway, is_captured, find_payment, update_payment, noted}

-- What the call answers: the refund's id is `none` for the word that stands in where the gateway gives
-- none.
pub record Refund : Type 0 where
  pub order : ℕ
  pub refund : Option ℕ
  pub amount : ℕ

-- `0.001`
abbrev pub tolerance : ℕ
tolerance = 1_208_925_819_614_629_199_872

-- `Math.round(rupees * 100)`
unfoldable pub paise_of : ℕ → ℕ
paise_of rupees = round (nearest (100 * rupees) 1)

-- The gates of `refundPayment`: what to refund, and of which payment of the gateway.
unfoldable pub check_refund : Option ℕ → Option Payment → Result (ℕ × ℕ × Bool)
check_refund amount found = do
  p ← or_throw found (err not_found)
  require (is_captured p) bad_request
  payment ← or_throw p.razorpay_payment (err bad_request)
  let recorded = hundredths p.amount
  let asked = elim amount as (λ _. ℕ) [ none ↦ recorded | some a ↦ a ]
  require (ltb 0 asked) bad_request
  require (leb asked (add recorded tolerance)) bad_request
  ok (payment, asked, leb (paise_of recorded) (paise_of asked))

-- The transaction of `refundPayment`, on the tables of that time.
unfoldable pub record_refund : ℕ → Bool → Shop → Shop
record_refund order is_full t = noted AuditAction.payment_refunded order (record t {
  payments =
      update_payment order
        (λ p. record p {
          status = if is_full then PaymentRecordStatus.refunded else PaymentRecordStatus.captured;
        })
        t.payments;
  sales =
      update_sale order
        (λ s. record s {
          payment_status =
              if is_full then PaymentStatus.refunded else PaymentStatus.partially_refunded;
        })
        t.sales;
})

unfoldable pub refund_payment : (Shop → Shop) → Gateway → ℕ → Option ℕ → Shop → Result Refund × Shop
refund_payment others gateway order amount s =
    elim (check_refund amount (find_payment order s.payments)) [
      | err e ↦ (err e, s)
      | ok (payment, asked, is_full) ↦ elim (gateway.refund payment (paise_of asked)) [
        | none ↦ (err database, s)
        | some refund ↦ (
          ok (record { order = order; refund = refund; amount = asked }),
          record_refund order is_full (others s),
        )
      ]
    ]
