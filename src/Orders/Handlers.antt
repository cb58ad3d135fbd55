-- ===== src/Orders/Handlers.antt =====
-- backend/src/controllers/order.controller.ts: `updateOrderStatus` and `cancelOrder`. A handler
-- answers with an HTTP status; a transaction that throws is rolled back, and answered with an error.
use Prim.Native.String.{String}
use vedhicfoods.Prelude.{
  ℕ, Bool, true, ◌&&◌, ◌||◌, not, Option, none, some, List, [], ◌∷◌, any_by, ◌==◌, if◌then◌else◌,
}
use vedhicfoods.Result.{
  Result, ok, err, Error, bad_request, unauthorized, forbidden, not_found, conflict, unavailable,
  database, ◌>>=◌,
}
use vedhicfoods.Inventory.State.{ReservationItem, AuditAction}
use vedhicfoods.Inventory.Service.{Tx, MovedItem, release_reservation, restock_order, audited}
use vedhicfoods.Orders.Status.{
  OrderStatus, same_status, includes, is_valid_order_transition, InventoryDisposition,
  inventory_disposition_for_transition, deducted_from,
}
use vedhicfoods.Orders.Store.{
  Order, Notice, Store, DeliveryStatus, find_order, find_order_by_key, update_order, set_status,
  reservation_items,
}
use vedhicfoods.Staff.Privilege.{RoleName, same_role, holds}

-- The stock effect of a transition, inside the handler's transaction.
unfoldable pub apply_disposition :
    InventoryDisposition → List ReservationItem → ℕ → Tx (List MovedItem)
apply_disposition InventoryDisposition.release items order db =
    release_reservation items (some order) db
apply_disposition InventoryDisposition.restock items order db = restock_order items (some order) db
apply_disposition InventoryDisposition.leave items order db = ok ([], db)

-- The transaction of `updateOrderStatus`, and what follows its commit.
unfoldable pub commit_status : Order → OrderStatus → Store → Result Store
commit_status existing status s =
    apply_disposition (inventory_disposition_for_transition existing.status status)
      (reservation_items existing.items) existing.id s.db
    >>= λ r. ok (record s {
      db = audited AuditAction.order_status_updated (some existing.id) r.1;
      orders = update_order existing.id (set_status status) s.orders;
      notices = Notice.order_updated existing.id existing.status status ∷ s.notices;
    })

abbrev pub Response : Type 0
Response = ℕ × Store

-- `catch`: the error is logged and answered with 500.
abbrev pub or_fail : Store → Result Store → Response
or_fail s (ok s') = (200, s')
or_fail s (err e) = (500, s)

-- The `status` of the body is any string: `none` stands for one that names no status.
unfoldable pub answer_status : Order → Option OrderStatus → Store → Response
answer_status existing none s = (400, s)
answer_status existing (some status) s =
    if same_status existing.status status
    then (200, s)
    else if not (is_valid_order_transition existing.status status)
    then (409, s)
    else or_fail s (commit_status existing status s)

unfoldable pub update_order_status : ℕ → Option OrderStatus → Store → Response
update_order_status id status s = elim (find_order id s.orders) [
  | none ↦ (404, s)
  | some existing ↦ answer_status existing status s
]

-- `req.user` and `req.orderAccess`: the order that a guest's access token was minted for.
pub record Caller : Type 0 where
  pub user : ℕ
  pub email : ℕ
  pub role : RoleName
  pub roles : List RoleName
  pub permissions : List String
  pub order_access : Option ℕ

unfoldable pub is_privileged_actor : Caller → Bool
unfolding same_role holds
is_privileged_actor c =
    any_by (same_role RoleName.admin) c.roles
    || any_by (same_role RoleName.owner) c.roles
    || same_role c.role RoleName.admin
    || same_role c.role RoleName.owner
    || holds c.permissions "orders.cancel"
    || holds c.permissions "orders.update"

-- `orderAccessTokenMatchesOrder`
unfoldable pub order_access_token_matches_order : Option ℕ → ℕ → Bool
order_access_token_matches_order none order = true
order_access_token_matches_order (some claimed) order = claimed == order

abbrev pub already_released : List OrderStatus
already_released = OrderStatus.failed ∷ OrderStatus.payment_failed ∷ []

-- The stock effect of `cancelOrder`, by the status that the order had.
unfoldable pub cancellation_disposition : OrderStatus → InventoryDisposition
cancellation_disposition status =
    if includes deducted_from status
    then InventoryDisposition.restock
    else if not (includes already_released status)
    then InventoryDisposition.release
    else InventoryDisposition.leave

-- The delivery of a cancelled order is cancelled with it, and that is recorded.
unfoldable pub cancel_delivery : Order → Store → Store
cancel_delivery o s = elim o.delivery [
  | none ↦ s
  | some DeliveryStatus.cancelled ↦ s
  | some _ ↦ record s {
    orders =
        update_order o.id (λ x. record x { delivery = some DeliveryStatus.cancelled }) s.orders;
    delivery_history = (o.id, DeliveryStatus.cancelled) ∷ s.delivery_history;
  }
]

-- The transaction of `cancelOrder`, and what follows its commit.
unfoldable pub commit_cancellation : Order → Store → Result Store
commit_cancellation o s =
    let s' =
      cancel_delivery o
        (record s { orders = update_order o.id (set_status OrderStatus.cancelled) s.orders }) in
    apply_disposition (cancellation_disposition o.status) (reservation_items o.items) o.id s'.db
    >>= λ r. ok (record s' {
      db = audited AuditAction.order_cancelled (some o.id) r.1;
      notices = Notice.mail_cancelled o.id ∷ s'.notices;
    })

-- The HTTP status of an error that `sendControllerError` reports.
unfoldable pub status_code : Error → ℕ
status_code bad_request = 400
status_code unauthorized = 401
status_code forbidden = 403
status_code not_found = 404
status_code conflict = 409
status_code unavailable = 503
status_code database = 500

abbrev pub or_report : Store → Result Store → Response
or_report s (ok s') = (200, s')
or_report s (err e) = (status_code e, s)

unfoldable pub answer_cancellation : Caller → Order → Store → Response
answer_cancellation c o s =
    if not (order_access_token_matches_order c.order_access o.id)
    then (403, s)
    else if not (is_privileged_actor c) && not (o.user == c.user || o.email == c.email)
    then (404, s)
    else if same_status o.status OrderStatus.cancelled
    then (400, s)
    else if same_status o.status OrderStatus.delivered
    then (400, s)
    else or_report s (commit_cancellation o s)

unfoldable pub cancel_order : Option Caller → ℕ → Store → Response
cancel_order none id s = (401, s)
cancel_order (some c) id s = elim (find_order_by_key id s.orders) [
  | none ↦ (404, s)
  | some o ↦ answer_cancellation c o s
]
