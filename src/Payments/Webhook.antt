-- ===== src/Payments/Webhook.antt =====
-- backend/src/integrations/razorpay/razorpay.service.ts: `processWebhookEvent`, with
-- `handlePaymentCaptured` and `handlePaymentFailed`. `others` is what other requests commit between
-- the reads of a handler and its transaction.
use Prim.Native.String.{String}
use vedhicfoods.Prelude.{ℕ, Bool, true, false, not, Option, none, some, [], ◌∷◌, if◌then◌else◌}
use vedhicfoods.Result.{Result, ok, err, bad_request, unauthorized, database, ◌>>=◌}
use vedhicfoods.Inventory.State.{AuditAction, Db}
use vedhicfoods.Inventory.Service.{release_reservation}
use vedhicfoods.Orders.Status.{OrderStatus, same_status}
use vedhicfoods.Orders.Store.{reservation_items}
use vedhicfoods.Checkout.Shop.{
  Shop, Sale, Payment, PaymentStatus, PaymentRecordStatus, find_sale, update_sale,
}
use vedhicfoods.Payments.Gateway.{
  is_captured, find_by_razorpay, update_payment, capture_gate, noted, matches,
}
use vedhicfoods.Payments.Confirming.{set_payment, settle_order}

-- `CapturedWebhookEntity`: the gateway's payment and order, the amount and the currency.
pub record CapturedWebhookEntity : Type 0 where
  pub id : ℕ
  pub order : ℕ
  pub amount : ℕ
  pub currency : String

-- The parsed event; `none` stands for an entity that `validateCapturedWebhookEntity` refuses, and for
-- a failure without an order.
pub data WebhookEvent : Type 0 where
  payment_captured : Option CapturedWebhookEntity → WebhookEvent
  payment_failed : Option ℕ → WebhookEvent
  order_paid unhandled : WebhookEvent

abbrev pub Answer : Type 0
Answer = Result (Unit {0}) × Shop

-- The transaction of `handlePaymentCaptured`: the order is settled if it was waiting for its payment
-- when it was read.
unfoldable pub capture_in_transaction : Sale → ℕ → Shop → Answer
capture_in_transaction sale payment t = elim (capture_gate sale.base.id payment t.payments) [
  | none ↦ (ok tt, t)
  | some payments ↦
      if same_status sale.base.status OrderStatus.pending_payment
      then elim (settle_order sale payments t) [
        | err e ↦ (err e, t)
        | ok t' ↦ (ok tt, noted AuditAction.payment_confirmed sale.base.id t')
      ]
      else (
        ok tt,
        noted AuditAction.payment_confirmed sale.base.id (record t { payments = payments }),
      )
]

-- The payment that a gateway's order names, with its order; the foreign key makes the order exist.
unfoldable pub with_payment : ℕ → (Payment → Sale → Answer) → Shop → Answer
with_payment order handle s = elim (find_by_razorpay order s.payments) [
  | none ↦ (ok tt, s)
  | some p ↦ elim (find_sale p.order s.sales) [
    | none ↦ (err database, s)
    | some sale ↦ handle p sale
  ]
]

unfoldable pub handle_payment_captured : (Shop → Shop) → CapturedWebhookEntity → Shop → Answer
handle_payment_captured others entity s =
    with_payment entity.order
      (λ p sale.
        if is_captured p
        then (ok tt, s)
        else if not (matches entity.amount entity.currency p)
        then (ok tt, noted AuditAction.settlement_anomaly sale.base.id s)
        else capture_in_transaction sale entity.id (others s))
      s

-- `if (inventoryItems.length > 0) await releaseReservation(…)`
unfoldable pub release_lines : Sale → Db → Result Db
release_lines sale db = elim (reservation_items sale.base.items) [
  | [] ↦ ok db
  | item ∷ items ↦ release_reservation (item ∷ items) (some sale.base.id) db >>= λ r. ok r.1
]

-- The transaction of `handlePaymentFailed`.
unfoldable pub fail_in_transaction : Sale → Shop → Answer
fail_in_transaction sale t = elim (release_lines sale t.db) [
  | err e ↦ (err e, t)
  | ok db ↦ (
    ok tt,
    noted AuditAction.payment_failed sale.base.id (record t {
      db = db;
      payments =
          update_payment sale.base.id (λ p. record p { status = PaymentRecordStatus.failed })
            t.payments;
      sales =
          update_sale sale.base.id (set_payment OrderStatus.payment_failed PaymentStatus.failed)
            t.sales;
    }),
  )
]

abbrev pub is_paid : Sale → Bool
is_paid sale = elim sale.payment_status [ PaymentStatus.paid ↦ true | _ ↦ false ]

unfoldable pub handle_payment_failed : (Shop → Shop) → ℕ → Shop → Answer
handle_payment_failed others order s =
    with_payment order
      (λ p sale.
        if is_captured p
        then (ok tt, s)
        else if is_paid sale
        then (ok tt, s)
        else fail_in_transaction sale (others s))
      s

-- `processWebhookEvent`, on a parsed body; `is_signed` says whether the signature is the gateway's.
unfoldable pub process_webhook_event : (Shop → Shop) → Bool → WebhookEvent → Shop → Answer
process_webhook_event others false event s = (err unauthorized, s)
process_webhook_event others true (WebhookEvent.payment_captured none) s = (err bad_request, s)
process_webhook_event others true (WebhookEvent.payment_captured (some entity)) s =
    handle_payment_captured others entity s
process_webhook_event others true (WebhookEvent.payment_failed none) s = (ok tt, s)
process_webhook_event others true (WebhookEvent.payment_failed (some order)) s =
    handle_payment_failed others order s
process_webhook_event others true WebhookEvent.order_paid s = (ok tt, s)
process_webhook_event others true WebhookEvent.unhandled s = (ok tt, s)
