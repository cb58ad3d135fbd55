-- ===== src/Delivery/Following.antt =====
-- What `updateDeliveryStatus` of backend/src/services/delivery.service.ts leaves behind.
use vedhicfoods.Prelude.{
  ℕ, ◌≡◌, ◌≢◌, ◌⊎◌, inl, inr, refl, sym, ◌∙◌, ap, true, false, some, arith, ◌==◌, if◌then◌else◌,
}
use vedhicfoods.Result.{ok}
use vedhicfoods.Orders.Status.{OrderStatus, same_status}
use vedhicfoods.Orders.Store.{DeliveryStatus}
use vedhicfoods.Checkout.Shop.{Sale, Payment, find_sale}
use vedhicfoods.Payments.Gateway.{find_payment}
use vedhicfoods.Delivery.Status.{
  code_of, same_delivery, is_valid_delivery_transition, valid_delivery_transitions,
}
use vedhicfoods.Delivery.Store.{DeliveryRow, Depot, Resolved, find_delivery, resolve_delivery}
use vedhicfoods.Delivery.Service.{
  set_delivery, change_status, with_delivery, update_delivery_status,
}
use vedhicfoods.Delivery.Changes.{order_after, update_delivery_status-Changed}
use vedhicfoods.Delivery.Effects.{
  FollowsStatus, FollowsPayment, FollowsRecord, FollowsTime, follows_status, follows_payment,
  follows_record, follows_time,
}
use vedhicfoods.Delivery.Taking.{FollowsStock, follows_stock}

-- The statuses from which a delivery comes to one.
pub ComesFrom : DeliveryStatus → DeliveryStatus → Type 0
ComesFrom DeliveryStatus.assigned from =
    (from ≡ DeliveryStatus.pending) ⊎ (from ≡ DeliveryStatus.packed)
ComesFrom DeliveryStatus.packed from =
    (from ≡ DeliveryStatus.pending) ⊎ (from ≡ DeliveryStatus.assigned)
ComesFrom DeliveryStatus.shipped from =
    (from ≡ DeliveryStatus.assigned)
    ⊎ ((from ≡ DeliveryStatus.packed) ⊎ (from ≡ DeliveryStatus.picked_up))
ComesFrom DeliveryStatus.out_for_delivery from =
    (from ≡ DeliveryStatus.shipped)
    ⊎ ((from ≡ DeliveryStatus.failed)
        ⊎ ((from ≡ DeliveryStatus.picked_up) ⊎ (from ≡ DeliveryStatus.in_transit)))
ComesFrom DeliveryStatus.delivered from =
    (from ≡ DeliveryStatus.out_for_delivery) ⊎ (from ≡ DeliveryStatus.in_transit)
ComesFrom DeliveryStatus.failed from =
    (from ≡ DeliveryStatus.shipped)
    ⊎ ((from ≡ DeliveryStatus.out_for_delivery) ⊎ (from ≡ DeliveryStatus.in_transit))
ComesFrom DeliveryStatus.returned from =
    (from ≡ DeliveryStatus.out_for_delivery) ⊎ (from ≡ DeliveryStatus.failed)
ComesFrom DeliveryStatus.in_transit from = from ≡ DeliveryStatus.picked_up
ComesFrom DeliveryStatus.pending from = ⊥
ComesFrom DeliveryStatus.picked_up from = ⊥
ComesFrom DeliveryStatus.cancelled from =
    (from ≢ DeliveryStatus.delivered) × (from ≢ DeliveryStatus.cancelled)

-- The code of a status tells it.
status_of : ℕ → DeliveryStatus
status_of n =
    if n == 0
    then DeliveryStatus.pending
    else if n == 1
    then DeliveryStatus.assigned
    else if n == 2
    then DeliveryStatus.picked_up
    else if n == 3
    then DeliveryStatus.in_transit
    else if n == 4
    then DeliveryStatus.out_for_delivery
    else if n == 5
    then DeliveryStatus.delivered
    else if n == 6
    then DeliveryStatus.failed
    else if n == 7
    then DeliveryStatus.returned
    else if n == 8
    then DeliveryStatus.packed
    else if n == 9
    then DeliveryStatus.shipped
    else DeliveryStatus.cancelled

status_of-code_of : (d : DeliveryStatus) → status_of (code_of d) ≡ d
unfolding status_of
status_of-code_of DeliveryStatus.pending = refl
status_of-code_of _ = refl

same_delivery_eq : (d e : DeliveryStatus) → same_delivery d e ≡ true → d ≡ e
same_delivery_eq d e h =
    let codes : code_of d ≡ code_of e = ground arith in
    sym (status_of-code_of d) ∙ ap status_of codes ∙ status_of-code_of e

comes_from :
    (target from : DeliveryStatus)
    → is_valid_delivery_transition from target ≡ true
    → ComesFrom target from
unfolding ComesFrom is_valid_delivery_transition valid_delivery_transitions
comes_from DeliveryStatus.assigned DeliveryStatus.pending h = inl refl
comes_from DeliveryStatus.assigned DeliveryStatus.packed h = inr refl
comes_from DeliveryStatus.assigned _ h = cc
comes_from DeliveryStatus.packed DeliveryStatus.pending h = inl refl
comes_from DeliveryStatus.packed DeliveryStatus.assigned h = inr refl
comes_from DeliveryStatus.packed _ h = cc
comes_from DeliveryStatus.shipped DeliveryStatus.assigned h = inl refl
comes_from DeliveryStatus.shipped DeliveryStatus.packed h = inr (inl refl)
comes_from DeliveryStatus.shipped DeliveryStatus.picked_up h = inr (inr refl)
comes_from DeliveryStatus.shipped _ h = cc
comes_from DeliveryStatus.out_for_delivery DeliveryStatus.shipped h = inl refl
comes_from DeliveryStatus.out_for_delivery DeliveryStatus.failed h = inr (inl refl)
comes_from DeliveryStatus.out_for_delivery DeliveryStatus.picked_up h = inr (inr (inl refl))
comes_from DeliveryStatus.out_for_delivery DeliveryStatus.in_transit h = inr (inr (inr refl))
comes_from DeliveryStatus.out_for_delivery _ h = cc
comes_from DeliveryStatus.delivered DeliveryStatus.out_for_delivery h = inl refl
comes_from DeliveryStatus.delivered DeliveryStatus.in_transit h = inr refl
comes_from DeliveryStatus.delivered _ h = cc
comes_from DeliveryStatus.failed DeliveryStatus.shipped h = inl refl
comes_from DeliveryStatus.failed DeliveryStatus.out_for_delivery h = inr (inl refl)
comes_from DeliveryStatus.failed DeliveryStatus.in_transit h = inr (inr refl)
comes_from DeliveryStatus.failed _ h = cc
comes_from DeliveryStatus.returned DeliveryStatus.out_for_delivery h = inl refl
comes_from DeliveryStatus.returned DeliveryStatus.failed h = inr refl
comes_from DeliveryStatus.returned _ h = cc
comes_from DeliveryStatus.in_transit DeliveryStatus.picked_up h = refl
comes_from DeliveryStatus.in_transit _ h = cc
comes_from DeliveryStatus.pending DeliveryStatus.pending h = cc
comes_from DeliveryStatus.pending _ h = cc
comes_from DeliveryStatus.picked_up DeliveryStatus.pending h = cc
comes_from DeliveryStatus.picked_up _ h = cc
comes_from DeliveryStatus.cancelled from h =
    (λ e. absurd (cc (rw e at h)), λ e. absurd (cc (rw e at h)))

-- The order after a committed change.
pub record FollowsSale (target : DeliveryStatus) (read x y : Sale) : Type 0 where
  pub status : FollowsStatus target x.base.status y.base.status
  pub payment :
      FollowsPayment target read.payment_method read.payment_status x.payment_status
        y.payment_status

-- The delivery that was read, and its row after a committed change.
pub record FollowsRow (target : DeliveryStatus) (now : ℕ) (read row : DeliveryRow) (s : Depot)
    : Type 0 where
  pub current : DeliveryRow
  pub was_found : find_delivery read.id s.deliveries ≡ some current
  pub unchanged : current.status ≡ read.status
  pub status : row.status ≡ target
  pub delivered_at : FollowsTime target now current.delivered_at row.delivered_at
  pub staff : row.assigned_staff ≡ current.assigned_staff

not_terminal :
    (d : DeliveryRow) (sale : Sale) (target : DeliveryStatus) (now : ℕ) (others : Depot → Depot)
    (s s' : Depot)
    → change_status d sale target now others s ≡ (ok tt, s')
    → same_delivery d.status DeliveryStatus.delivered ≡ false
unfolding change_status
not_terminal d sale target now others s s' e = ground arith

order_open :
    (status : OrderStatus)
    → same_status status OrderStatus.cancelled ≡ false
    → status ≢ OrderStatus.cancelled
order_open status h e = absurd (cc (rw e at h))

-- What a change of a delivery leaves behind, where `s` is committed when its transaction begins.
pub record Follows (target : DeliveryStatus) (now : ℕ) (read : DeliveryRow) (sale : Sale)
    (s s' : Depot) : Type 0 where
  pub not_cancelled : sale.base.status ≢ OrderStatus.cancelled
  pub not_delivered : read.status ≢ DeliveryStatus.delivered
  pub comes_from : ComesFrom target read.status
  pub delivery :
      (row : DeliveryRow) × (find_delivery read.id s'.deliveries ≡ some row)
      × FollowsRow target now read row s
  pub order :
      (x : Sale)
      → find_sale sale.base.id s.shop.sales ≡ some x
      → (y : Sale) × (find_sale sale.base.id s'.shop.sales ≡ some y) × FollowsSale target sale x y
  pub payment :
      (p : Payment)
      → find_payment sale.base.id s.shop.payments ≡ some p
      → (q : Payment) × (find_payment sale.base.id s'.shop.payments ≡ some q)
        × FollowsRecord target sale.payment_method sale.payment_status p.status q.status
  pub stock : FollowsStock target sale.base s.shop.db s'.shop.db

-- Where `updateDeliveryStatus` succeeds on a delivery that it resolved, whatever other requests
-- committed before its transaction: the order that was read was not CANCELLED, and the delivery
-- came from a status that may precede the target, so not from DELIVERED or CANCELLED. The row still
-- had the status that was read, and has the target afterwards, with the time if that is DELIVERED,
-- and its staff. The order takes the status PACKED, SHIPPED, OUT_FOR_DELIVERY, DELIVERED or
-- CANCELLED of its delivery, and keeps its own on any other. An order that was read as cash on
-- delivery and not PAID is PAID when it is delivered, and its payment CAPTURED; otherwise both keep
-- their status. When the target is CANCELLED or RETURNED, the stock of an order read as CONFIRMED,
-- PROCESSING, PACKED, SHIPPED or OUT_FOR_DELIVERY is restocked, if it had not been, that of one
-- PENDING, PENDING_PAYMENT or DELIVERED is released, and no other target or status moves a product.
pub update_delivery_status-Follows :
    (key now : ℕ) (target : DeliveryStatus) (others : Depot → Depot) (s s' : Depot) (r : Resolved)
    → resolve_delivery key s ≡ ok r
    → update_delivery_status key target now others s ≡ (ok tt, s')
    → Follows target now r.delivery r.sale (others r.depot) s'
unfolding update_delivery_status with_delivery set_delivery
update_delivery_status-Follows key now target others s s' r found e =
    let (live_order, valid, h) =
      update_delivery_status-Changed key now target others s s' r found e in
    let live =
      not_terminal r.delivery r.sale target now others r.depot s'
        (rw (update_delivery_status, with_delivery, found) at e) in
    record {
      not_cancelled = order_open r.sale.base.status live_order;
      comes_from = comes_from target r.delivery.status valid;
      not_delivered = λ end. absurd (cc (rw end at live));
      delivery = (
        set_delivery target now h.current,
        h.now_found,
        record {
          current = h.current;
          was_found = h.was_found;
          unchanged = same_delivery_eq h.current.status r.delivery.status h.was_unchanged;
          status = refl;
          delivered_at = follows_time target now h.current;
          staff = refl;
        },
      );
      order = λ x here. (
        order_after r.sale target x,
        h.synced_order x here,
        record {
          status = follows_status target r.sale x;
          payment =
              follows_payment target r.sale.payment_method r.sale.payment_status r.sale x refl refl;
        },
      );
      payment = λ p here. rw h.payments (
          follows_record target r.sale.payment_method r.sale.payment_status r.sale
            (others r.depot).shop p refl refl here);
      stock = follows_stock target r.sale.base (others r.depot).shop.db s'.shop.db h.stock;
    }
