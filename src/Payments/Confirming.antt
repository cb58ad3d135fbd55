-- ===== src/Payments/Confirming.antt =====
-- backend/src/integrations/razorpay/razorpay.service.ts: `initiatePayment` and
-- `verifyAndConfirmPayment`. The transaction starts from the tables that other requests have left
-- by then: `others` is what they commit after the payment was read.
use vedhicfoods.Prelude.{
  ℕ, Bool, true, false, ◌&&◌, not, Option, none, some, List, [], ◌∷◌, any_by, ltb, ◌==◌,
  if◌then◌else◌,
}
use vedhicfoods.Result.{
  Result, ok, err, bad_request, forbidden, not_found, conflict, unavailable, database, require,
  ◌>>=◌, ◌>>◌,
}
use vedhicfoods.Inventory.State.{AuditAction, Db}
use vedhicfoods.Inventory.Service.{confirm_deduction}
use vedhicfoods.Orders.Status.{OrderStatus, same_status}
use vedhicfoods.Orders.Store.{reservation_items, set_status}
use vedhicfoods.Checkout.Shop.{
  Shop, Sale, Payment, PaymentMethod, PaymentStatus, PaymentRecordStatus, PaymentConfig,
  same_method, find_sale, update_sale,
}
use vedhicfoods.Payments.Gateway.{
  Gateway, is_captured, find_by_razorpay, find_payment, update_payment, capture_gate, noted,
  assert_gateway_payment_matches_record,
}

pub data Outcome : Type 0 where
  confirmed already_confirmed : Outcome

-- `order.update({ data: { status, paymentStatus } })`
abbrev pub set_payment : OrderStatus → PaymentStatus → Sale → Sale
set_payment status payment sale = record sale {
  base = set_status status sale.base;
  payment_status = payment;
}

-- `if (inventoryItems.length > 0) await confirmDeduction(…)`
unfoldable pub deduct : Sale → Db → Result Db
deduct sale db = elim (reservation_items sale.base.items) [
  | [] ↦ ok db
  | item ∷ items ↦ confirm_deduction (item ∷ items) (some sale.base.id) db >>= λ r. ok r.1
]

-- The writes that follow a capture: the order is confirmed and paid, and its stock is sold.
unfoldable pub settle_order : Sale → List Payment → Shop → Result Shop
settle_order sale payments t = deduct sale t.db >>= λ db. ok (record t {
  db = db;
  payments = payments;
  sales = update_sale sale.base.id (set_payment OrderStatus.confirmed PaymentStatus.paid) t.sales;
})

-- The transaction: whoever finds the payment captured already leaves everything as it is.
unfoldable pub confirm_in_transaction : Sale → ℕ → Shop → Result Outcome × Shop
confirm_in_transaction sale payment t = elim (capture_gate sale.base.id payment t.payments) [
  | none ↦ (ok already_confirmed, t)
  | some payments ↦ elim (settle_order sale payments t) [
    | err e ↦ (err e, t)
    | ok t' ↦ (ok confirmed, noted AuditAction.payment_confirmed sale.base.id t')
  ]
]

-- A signature that is not the gateway's: the payment is marked failed.
unfoldable pub reject_signature : ℕ → Shop → Shop
reject_signature order s = noted AuditAction.signature_invalid order (record s {
  payments =
      update_payment order (λ p. record p { status = PaymentRecordStatus.failed }) s.payments;
})

-- `paymentRecord.razorpayPaymentId && paymentRecord.razorpayPaymentId !== razorpayPaymentId`
abbrev pub is_other_payment : Payment → ℕ → Bool
is_other_payment p payment = elim p.razorpay_payment [
  | none ↦ false
  | some known ↦ not (known == payment)
]

abbrev pub is_known : Payment → Bool
is_known p = elim p.razorpay_payment [ none ↦ false | some known ↦ true ]

-- Steps 2 to 6, for a payment that was found with its order.
unfoldable pub confirm_payment :
    (Shop → Shop) → Gateway → ℕ → ℕ → ℕ → ℕ → Payment → Sale → Shop → Result Outcome × Shop
confirm_payment others gateway order payment signature user p sale s =
    if not (sale.base.user == user)
    then (err forbidden, s)
    else if is_captured p && is_known p
    then (ok already_confirmed, s)
    else if is_other_payment p payment
    then (err conflict, s)
    else if not (gateway.is_signed order payment signature)
    then (err bad_request, reject_signature sale.base.id (others s))
    else let (matched, noticed) = assert_gateway_payment_matches_record gateway order payment p s in
      elim matched [
        | err e ↦ (err e, noticed)
        | ok done ↦ confirm_in_transaction sale payment (others noticed)
      ]

-- `verifyAndConfirmPayment`; the foreign key makes the order of a payment exist.
unfoldable pub verify_and_confirm_payment :
    (Shop → Shop) → Gateway → ℕ → ℕ → ℕ → ℕ → Shop → Result Outcome × Shop
verify_and_confirm_payment others gateway order payment signature user s =
    elim (find_by_razorpay order s.payments) [
      | none ↦ (err not_found, s)
      | some p ↦ elim (find_sale p.order s.sales) [
        | none ↦ (err database, s)
        | some sale ↦ confirm_payment others gateway order payment signature user p sale s
      ]
    ]

-- The gates of `initiatePayment`.
unfoldable pub check_initiation : ℕ → Sale → PaymentConfig → Result (Unit {0})
check_initiation user sale config = do
  require (sale.base.user == user) forbidden
  require (same_status sale.base.status OrderStatus.pending_payment) bad_request
  require (not (same_method sale.payment_method PaymentMethod.cod)) bad_request
  require config.online_enabled unavailable
  require (any_by (same_method sale.payment_method) config.enabled_methods) bad_request
  ok tt

-- The gateway's order for the total; a payment that waits on one keeps it.
unfoldable pub open_payment : Gateway → Sale → Shop → Result ℕ × Shop
open_payment gateway sale s =
    if ltb 0 sale.total
    then elim (gateway.create sale.total) [
      | none ↦ (err database, s)
      | some order ↦ (
        ok order,
        noted AuditAction.payment_initiated sale.base.id (record s {
          payments =
              update_payment sale.base.id
                (λ p. record p {
                  razorpay_order = some order;
                  amount = sale.total;
                  status = PaymentRecordStatus.pending;
                })
                s.payments;
        }),
      )
    ]
    else (err bad_request, s)

-- `order.payment?.razorpayOrderId && order.payment.status === 'PENDING'`
unfoldable pub waiting_order : Option Payment → Option ℕ
waiting_order none = none
waiting_order (some p) = elim p.status [ PaymentRecordStatus.pending ↦ p.razorpay_order | _ ↦ none ]

-- `initiatePayment`: the id of the gateway's order.
unfoldable pub initiate_payment : Gateway → ℕ → ℕ → Shop → Result ℕ × Shop
initiate_payment gateway id user s = elim (find_sale id s.sales) [
  | none ↦ (err not_found, s)
  | some sale ↦ elim (check_initiation user sale s.config) [
    | err e ↦ (err e, s)
    | ok allowed ↦ elim (waiting_order (find_payment sale.base.id s.payments)) [
      | some order ↦ (ok order, s)
      | none ↦ open_payment gateway sale s
    ]
  ]
]
