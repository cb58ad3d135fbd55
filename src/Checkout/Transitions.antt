-- ===== src/Checkout/Transitions.antt =====
-- `transitionOrderStatus` of backend/src/services/checkout.service.ts, with the transitions of
-- backend/src/types/checkout.types.ts, on the tables of the order handlers.
use vedhicfoods.Prelude.{ℕ, not, none, some, List, [], ◌∷◌, if◌then◌else◌}
use vedhicfoods.Result.{Result, ok, err, bad_request, not_found, ◌>>=◌}
use vedhicfoods.Inventory.State.{AuditAction}
use vedhicfoods.Inventory.Service.{audited}
use vedhicfoods.Orders.Status.{OrderStatus, same_status, includes, InventoryDisposition}
use vedhicfoods.Orders.Store.{Order, Store, find_order, update_order, set_status, reservation_items}
use vedhicfoods.Orders.Handlers.{apply_disposition, cancel_delivery}

-- `VALID_ORDER_TRANSITIONS`
unfoldable pub valid_order_transitions : OrderStatus → List OrderStatus
valid_order_transitions OrderStatus.pending =
    OrderStatus.pending_payment ∷ OrderStatus.confirmed ∷ OrderStatus.cancelled ∷ OrderStatus.failed
    ∷ []
valid_order_transitions OrderStatus.pending_payment =
    OrderStatus.confirmed ∷ OrderStatus.payment_failed ∷ OrderStatus.cancelled ∷ []
valid_order_transitions OrderStatus.payment_failed =
    OrderStatus.pending_payment ∷ OrderStatus.cancelled ∷ []
valid_order_transitions OrderStatus.confirmed = OrderStatus.processing ∷ OrderStatus.cancelled ∷ []
valid_order_transitions OrderStatus.processing = OrderStatus.packed ∷ OrderStatus.cancelled ∷ []
valid_order_transitions OrderStatus.packed = OrderStatus.shipped ∷ OrderStatus.cancelled ∷ []
valid_order_transitions OrderStatus.shipped =
    OrderStatus.out_for_delivery ∷ OrderStatus.cancelled ∷ []
valid_order_transitions OrderStatus.out_for_delivery =
    OrderStatus.delivered ∷ OrderStatus.cancelled ∷ []
valid_order_transitions OrderStatus.delivered = []
valid_order_transitions OrderStatus.cancelled = []
valid_order_transitions OrderStatus.failed = []

-- The stock effect of a transition to CANCELLED, by the status that the order had.
unfoldable pub disposition_of_cancelled : OrderStatus → InventoryDisposition
disposition_of_cancelled OrderStatus.pending_payment = InventoryDisposition.release
disposition_of_cancelled OrderStatus.confirmed = InventoryDisposition.restock
disposition_of_cancelled OrderStatus.processing = InventoryDisposition.restock
disposition_of_cancelled OrderStatus.packed = InventoryDisposition.restock
disposition_of_cancelled _ = InventoryDisposition.leave

unfoldable pub transition_disposition : OrderStatus → OrderStatus → InventoryDisposition
transition_disposition current new =
    if same_status new OrderStatus.cancelled
    then disposition_of_cancelled current
    else InventoryDisposition.leave

-- The writes that follow the stock effect: the delivery of a cancelled order, the order, the audit.
unfoldable pub write_transition : Order → OrderStatus → Store → Store
write_transition o new s =
    let s' = if same_status new OrderStatus.cancelled then cancel_delivery o s else s in
    record s' {
      db = audited AuditAction.order_status_updated (some o.id) s'.db;
      orders = update_order o.id (set_status new) s'.orders;
    }

-- The transaction; the answer is the order's row after it.
unfoldable pub commit_transition : Order → OrderStatus → Store → Result (Order × Store)
commit_transition o new s =
    apply_disposition (transition_disposition o.status new) (reservation_items o.items) o.id s.db
    >>= λ r. ok (set_status new o, write_transition o new (record s { db = r.1 }))

unfoldable pub transition : Order → OrderStatus → Store → Result (Order × Store)
transition o new s =
    if same_status o.status new
    then ok (o, s)
    else if not (includes (valid_order_transitions o.status) new)
    then err bad_request
    else commit_transition o new s

unfoldable pub transition_order_status : ℕ → OrderStatus → Store → Result (Order × Store)
transition_order_status id new s = elim (find_order id s.orders) [
  | none ↦ err not_found
  | some o ↦ transition o new s
]
