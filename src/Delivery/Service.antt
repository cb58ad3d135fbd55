-- ===== src/Delivery/Service.antt =====
-- backend/src/services/delivery.service.ts: `assignStaff` and `updateDeliveryStatus`, without the mail
-- after the commit. `others` is what other requests commit between the reads of a call and its
-- transaction.
use vedhicfoods.Prelude.{
  ℕ, Bool, false, ◌&&◌, ◌||◌, not, Option, none, some, List, [], ◌∷◌, map, ◌==◌, if◌then◌else◌,
}
use vedhicfoods.Result.{Result, ok, err, bad_request, conflict, ◌>>=◌}
use vedhicfoods.Inventory.State.{ReservationItem, AuditAction}
use vedhicfoods.Orders.Status.{
  OrderStatus, same_status, includes, InventoryDisposition, deducted_from,
}
use vedhicfoods.Orders.Store.{DeliveryStatus, reservation_items, set_status}
use vedhicfoods.Orders.Handlers.{apply_disposition}
use vedhicfoods.Checkout.Shop.{
  Shop, Sale, Payment, Customer, PaymentMethod, PaymentStatus, PaymentRecordStatus, same_method,
  update_sale,
}
use vedhicfoods.Payments.Gateway.{noted}
use vedhicfoods.Payments.Webhook.{is_paid}
use vedhicfoods.Delivery.Status.{same_delivery, is_valid_delivery_transition, order_status_of}
use vedhicfoods.Delivery.Store.{
  DeliveryRow, Depot, find_delivery, update_delivery, with_history, Resolved, resolve_delivery,
  Answer, committed,
}

-- The order's columns after a change of the delivery, and whether cash was collected.
unfoldable pub collects : Sale → DeliveryStatus → Bool
collects sale target =
    same_delivery target DeliveryStatus.delivered
    && same_method sale.payment_method PaymentMethod.cod
    && not (is_paid sale)

unfoldable pub collected : ℕ → Payment → Payment
collected order p =
    if p.order == order then record p { status = PaymentRecordStatus.captured } else p

unfoldable pub synced : Bool → OrderStatus → Sale → Sale
synced collecting status x = record x {
  base = set_status status x.base;
  payment_status = if collecting then PaymentStatus.paid else x.payment_status;
}

unfoldable pub sync_order : Sale → DeliveryStatus → Shop → Shop
sync_order sale target s = elim (order_status_of target) [
  | none ↦ s
  | some status ↦ record s {
    sales = update_sale sale.base.id (synced (collects sale target) status) s.sales;
    payments = if collects sale target then map (collected sale.base.id) s.payments else s.payments;
  }
]

abbrev pub already_disposed : List OrderStatus
already_disposed = OrderStatus.failed ∷ OrderStatus.payment_failed ∷ OrderStatus.cancelled ∷ []

-- The stock effect, by the status that the order had; nothing for an order without products.
unfoldable pub disposition_of : OrderStatus → List ReservationItem → InventoryDisposition
disposition_of status [] = InventoryDisposition.leave
disposition_of status (i ∷ is) =
    if includes deducted_from status
    then InventoryDisposition.restock
    else if not (includes already_disposed status)
    then InventoryDisposition.release
    else InventoryDisposition.leave

unfoldable pub delivery_disposition :
    DeliveryStatus → OrderStatus → List ReservationItem → InventoryDisposition
delivery_disposition target status items =
    if same_delivery target DeliveryStatus.cancelled || same_delivery target DeliveryStatus.returned
    then disposition_of status items
    else InventoryDisposition.leave

unfoldable pub set_delivery : DeliveryStatus → ℕ → DeliveryRow → DeliveryRow
set_delivery target now d = record d {
  status = target;
  delivered_at = if same_delivery target DeliveryStatus.delivered then some now else d.delivered_at;
}

-- The guard of the conditional write: the row still has the status that was read.
unfoldable pub is_unchanged : DeliveryRow → List DeliveryRow → Bool
is_unchanged d ds = elim (find_delivery d.id ds) [
  | none ↦ false
  | some current ↦ same_delivery current.status d.status
]

-- The transaction, and the audit entry that follows it.
unfoldable pub commit_change : DeliveryRow → Sale → DeliveryStatus → ℕ → Depot → Result Depot
commit_change d sale target now s =
    if not (is_unchanged d s.deliveries)
    then err conflict
    else let shop = sync_order sale target s.shop in
      let items = reservation_items sale.base.items in
      apply_disposition (delivery_disposition target sale.base.status items) items sale.base.id
        shop.db
      >>= λ r. ok (record {
        shop =
            noted AuditAction.delivery_status_changed d.id
              (with_history sale.base.id target (record shop { db = r.1 }));
        deliveries = update_delivery d.id (set_delivery target now) s.deliveries;
      })

unfoldable pub change_status :
    DeliveryRow → Sale → DeliveryStatus → ℕ → (Depot → Depot) → Depot → Answer
change_status d sale target now others s =
    if same_status sale.base.status OrderStatus.cancelled
      || same_delivery d.status DeliveryStatus.cancelled
    then (err bad_request, s)
    else if same_delivery d.status DeliveryStatus.delivered
    then (err bad_request, s)
    else if same_delivery d.status target
    then (err bad_request, s)
    else if not (is_valid_delivery_transition d.status target)
    then (err bad_request, s)
    else committed (others s) (commit_change d sale target now (others s))

unfoldable pub with_delivery : ℕ → (Resolved → Answer) → Depot → Answer
with_delivery key next s = elim (resolve_delivery key s) [ err e ↦ (err e, s) | ok r ↦ next r ]

unfoldable pub update_delivery_status : ℕ → DeliveryStatus → ℕ → (Depot → Depot) → Depot → Answer
update_delivery_status key target now others =
    with_delivery key λ r. change_status r.delivery r.sale target now others r.depot

-- `assignStaff`: the transaction, whose writes are not conditional.
unfoldable pub commit_assignment : DeliveryRow → Sale → ℕ → Depot → Depot
commit_assignment d sale staff s =
    let is_first = same_delivery d.status DeliveryStatus.pending in
    let status = if is_first then DeliveryStatus.assigned else d.status in
    record {
      shop = noted AuditAction.delivery_staff_assigned d.id (
          with_history sale.base.id status (record s.shop {
            sales =
                if is_first && same_status sale.base.status OrderStatus.confirmed
                then update_sale sale.base.id (synced false OrderStatus.processing) s.shop.sales
                else s.shop.sales;
          }));
      deliveries =
          update_delivery d.id (λ x. record x { assigned_staff = some staff; status = status })
            s.deliveries;
    }

abbrev pub is_active_user : Option Customer → Bool
is_active_user none = false
is_active_user (some u) = u.is_active

unfoldable pub assign : DeliveryRow → Sale → ℕ → (Depot → Depot) → Depot → Answer
assign d sale staff others s =
    if same_delivery d.status DeliveryStatus.cancelled
    then (err bad_request, s)
    else if same_delivery d.status DeliveryStatus.delivered
    then (err bad_request, s)
    else if not (is_active_user (s.shop.customers staff))
    then (err bad_request, s)
    else (ok tt, commit_assignment d sale staff (others s))

unfoldable pub assign_staff : ℕ → ℕ → (Depot → Depot) → Depot → Answer
assign_staff key staff others = with_delivery key λ r. assign r.delivery r.sale staff others r.depot
