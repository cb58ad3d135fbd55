-- ===== src/Payments/Gateway.antt =====
-- backend/src/integrations/razorpay/razorpay.service.ts: what the service asks of the payment gateway,
-- and the rows of `payments`. The gateway's answers are arguments: the gateway is not code of the
-- repository. Amounts are whole paise.
use Prim.Native.String.{String}
use text.Mathlib.Text.{◌==◌ as str_eq}
use vedhicfoods.Prelude.{
  ℕ, Bool, true, false, ◌&&◌, Option, none, some, List, [], ◌∷◌, ◌==◌, if◌then◌else◌,
}
use vedhicfoods.Result.{Result, ok, err, bad_request, unavailable}
use vedhicfoods.Inventory.State.{AuditAction}
use vedhicfoods.Inventory.Service.{audited}
use vedhicfoods.Cart.Store.{same_key}
use vedhicfoods.Checkout.Shop.{Shop, Payment, PaymentRecordStatus}

pub data GatewayStatus : Type 0 where
  created authorized captured refunded failed : GatewayStatus

-- What `payments.fetch` answers; the currency is in upper case.
pub record GatewayPayment : Type 0 where
  pub amount : ℕ
  pub currency : String
  pub order : Option ℕ
  pub status : GatewayStatus

-- `resolveRazorpayCredentials`, with the answers of the gateway that they open: whether a signature
-- is the HMAC of an order and a payment, the payment with an id, a new order for an amount, and a
-- refund of an amount, whose answer may lack an id; `none` is a call that fails.
pub record Gateway : Type 0 where
  pub is_signed : ℕ → ℕ → ℕ → Bool
  pub fetch : ℕ → Option GatewayPayment
  pub create : ℕ → Option ℕ
  pub refund : ℕ → ℕ → Option (Option ℕ)

abbrev pub is_captured : Payment → Bool
is_captured p = elim p.status [ PaymentRecordStatus.captured ↦ true | _ ↦ false ]

-- `payment.findUnique({ where: { razorpayOrderId } })`
unfoldable pub find_by_razorpay : ℕ → List Payment → Option Payment
find_by_razorpay key [] = none
find_by_razorpay key (p ∷ ps) =
    if same_key p.razorpay_order (some key) then some p else find_by_razorpay key ps

-- `payment.findUnique({ where: { orderId } })`, and the write by it: an order has one payment.
unfoldable pub find_payment : ℕ → List Payment → Option Payment
find_payment order [] = none
find_payment order (p ∷ ps) = if p.order == order then some p else find_payment order ps

unfoldable pub update_payment : ℕ → (Payment → Payment) → List Payment → List Payment
update_payment order change [] = []
update_payment order change (p ∷ ps) =
    if p.order == order then change p ∷ ps else p ∷ update_payment order change ps

-- `payment.updateMany({ where: { id, status: { not: 'CAPTURED' } }, data })`: the rows after it, if
-- it affected one.
unfoldable pub capture_gate : ℕ → ℕ → List Payment → Option (List Payment)
capture_gate order payment ps = elim (find_payment order ps) [
  | none ↦ none
  | some p ↦
      if is_captured p
      then none
      else some (
          update_payment order
            (λ x. record x {
              status = PaymentRecordStatus.captured;
              razorpay_payment = some payment;
            })
            ps)
]

-- An entry of the audit trail about an order's payment.
unfoldable pub noted : AuditAction → ℕ → Shop → Shop
noted action order s = record s { db = audited action (some order) s.db }

abbrev pub is_settled : GatewayStatus → Bool
is_settled captured = true
is_settled _ = false

-- `gatewayOrderId && gatewayOrderId !== razorpayOrderId`
abbrev pub is_of_order : ℕ → GatewayPayment → Bool
is_of_order order g = elim g.order [ none ↦ true | some other ↦ other == order ]

abbrev pub matches : ℕ → String → Payment → Bool
matches amount currency p = amount == p.amount && str_eq currency p.currency

-- `assertGatewayPaymentMatchesRecord`: a mismatch is recorded as an anomaly.
unfoldable pub assert_gateway_payment_matches_record :
    Gateway → ℕ → ℕ → Payment → Shop → Result (Unit {0}) × Shop
assert_gateway_payment_matches_record gateway order payment p s = elim (gateway.fetch payment) [
  | none ↦ (err unavailable, s)
  | some g ↦
      if is_settled g.status && is_of_order order g && matches g.amount g.currency p
      then (ok tt, s)
      else (err bad_request, noted AuditAction.settlement_anomaly p.order s)
]
