-- ===== src/Payments/Failing.antt =====
-- backend/src/controllers/order.controller.ts: `failPayment`, on the tables of the shop.
use vedhicfoods.Prelude.{ℕ, ◌&&◌, ◌||◌, not, Option, none, some, List, [], ◌∷◌, ◌==◌, if◌then◌else◌}
use vedhicfoods.Result.{ok, err}
use vedhicfoods.Inventory.State.{AuditAction}
use vedhicfoods.Inventory.Service.{release_reservation}
use vedhicfoods.Orders.Status.{OrderStatus, same_status}
use vedhicfoods.Orders.Store.{reservation_items}
use vedhicfoods.Orders.Handlers.{
  Caller, is_privileged_actor, order_access_token_matches_order, status_code,
}
use vedhicfoods.Checkout.Shop.{Shop, Sale, Payment, PaymentStatus, PaymentRecordStatus, update_sale}
use vedhicfoods.Payments.Gateway.{is_captured, noted}
use vedhicfoods.Payments.Confirming.{set_payment}
use vedhicfoods.Payments.Webhook.{is_paid}

-- `findFirst` by id or order number.
unfoldable pub find_sale_by_key : ℕ → List Sale → Option Sale
find_sale_by_key key [] = none
find_sale_by_key key (s ∷ ss) =
    if s.base.id == key || s.base.number == key then some s else find_sale_by_key key ss

-- `payment.updateMany({ where: { orderId, status: { not: 'CAPTURED' } } })`
unfoldable pub fail_uncaptured : ℕ → List Payment → List Payment
fail_uncaptured order [] = []
fail_uncaptured order (p ∷ ps) =
    (if p.order == order && not (is_captured p)
      then record p { status = PaymentRecordStatus.failed }
      else p)
    ∷ fail_uncaptured order ps

abbrev pub ShopResponse : Type 0
ShopResponse = ℕ × Shop

-- The transaction of `failPayment`, and its audit entry.
unfoldable pub commit_failure : Sale → Shop → ShopResponse
commit_failure sale s =
    elim (release_reservation (reservation_items sale.base.items) (some sale.base.id) s.db) [
      | err e ↦ (status_code e, s)
      | ok r ↦ (
        200,
        noted AuditAction.order_payment_failed sale.base.id (record s {
          db = r.1;
          payments = fail_uncaptured sale.base.id s.payments;
          sales =
              update_sale sale.base.id (set_payment OrderStatus.failed PaymentStatus.failed)
                s.sales;
        }),
      )
    ]

unfoldable pub answer_failure : Caller → Sale → Shop → ShopResponse
answer_failure c sale s =
    if not (order_access_token_matches_order c.order_access sale.base.id)
    then (403, s)
    else if not (is_privileged_actor c)
        && not (sale.base.user == c.user || sale.base.email == c.email)
    then (404, s)
    else if is_paid sale
    then (400, s)
    else if same_status sale.base.status OrderStatus.failed
        || same_status sale.base.status OrderStatus.cancelled
    then (200, s)
    else commit_failure sale s

-- `none` is a request without a signed-in user.
unfoldable pub fail_payment : Option Caller → ℕ → Shop → ShopResponse
fail_payment none key s = (401, s)
fail_payment (some c) key s = elim (find_sale_by_key key s.sales) [
  | none ↦ (404, s)
  | some sale ↦ answer_failure c sale s
]
