-- ===== src/Delivery/Stranding.antt =====
-- Where backend/src/services/delivery.service.ts lets two requests, or a delivery and its order, drift
-- apart.
use mathlib.Core.Bool.{false≢true}
use vedhicfoods.Prelude.{
  ℕ, ◌≡◌, inl, inr, refl, sym, ◌∙◌, false, some, List, [], ◌∷◌, arith, subst, if◌then◌else◌,
}
use vedhicfoods.Result.{ok}
use vedhicfoods.Inventory.State.{Db, ReservationItem}
use vedhicfoods.Inventory.Service.{already_restocked}
use vedhicfoods.Inventory.Moves.{keys, demand, Moves}
use vedhicfoods.Inventory.Conservation.{Restocks}
use vedhicfoods.Orders.Status.{OrderStatus}
use vedhicfoods.Orders.Store.{Order, DeliveryStatus, reservation_items}
use vedhicfoods.Orders.Effects.{Disposes}
use vedhicfoods.Checkout.Shop.{Sale, find_sale}
use vedhicfoods.Payments.Releasing.{find_sale-id}
use vedhicfoods.Delivery.Status.{same_delivery, order_status_of}
use vedhicfoods.Delivery.Store.{DeliveryRow, Depot, Resolved, find_delivery, resolve_delivery}
use vedhicfoods.Delivery.Service.{
  set_delivery, synced, delivery_disposition, disposition_of, update_delivery_status, assign,
  assign_staff, commit_assignment, with_delivery,
}
use vedhicfoods.Delivery.Changes.{find_delivery-update, order_after, update_delivery_status-Changed}

assign-cases :
    (d : DeliveryRow) (sale : Sale) (staff : ℕ) (others : Depot → Depot) (s s' : Depot)
    → assign d sale staff others s ≡ (ok tt, s')
    → s' ≡ commit_assignment d sale staff (others s)
unfolding assign
assign-cases d sale staff others s s' e = ground arith

-- `assignStaff` that ends well writes the row that it had read as ASSIGNED or in its old status,
-- whatever other requests made of the row in between: a delivery that was cancelled meanwhile is
-- open again.
pub assign_staff-overwrites :
    (key staff : ℕ) (others : Depot → Depot) (s s' : Depot) (r : Resolved) (current : DeliveryRow)
    → resolve_delivery key s ≡ ok r
    → assign_staff key staff others s ≡ (ok tt, s')
    → find_delivery r.delivery.id (others r.depot).deliveries ≡ some current
    → find_delivery r.delivery.id s'.deliveries
      ≡ some (record current {
        assigned_staff = some staff;
        status =
            if same_delivery r.delivery.status DeliveryStatus.pending
            then DeliveryStatus.assigned
            else r.delivery.status;
      })
unfolding assign_staff with_delivery commit_assignment
assign_staff-overwrites key staff others s s' r current found e here =
    let done : s' ≡ commit_assignment r.delivery r.sale staff (others r.depot) =
      assign-cases r.delivery r.sale staff others r.depot s'
        (rw (assign_staff, with_delivery, found) at e) in
    rw done
      (find_delivery-update r.delivery.id _ (others r.depot).deliveries current (λ x. refl) here)

-- The row and the order that an id of a delivery leads to.
resolved_by_id :
    (key : ℕ) (d : DeliveryRow) (sale : Sale) (s : Depot)
    → find_delivery key s.deliveries ≡ some d
    → find_sale d.order s.shop.sales ≡ some sale
    → resolve_delivery key s ≡ ok (record { delivery = d; sale = sale; depot = s })
unfolding resolve_delivery
resolved_by_id key d sale s h h' = rw (resolve_delivery, h, h') refl

find_delivery-id :
    (id : ℕ) (ds : List DeliveryRow) (d : DeliveryRow) → find_delivery id ds ≡ some d → d.id ≡ id
unfolding find_delivery
find_delivery-id id [] d e = cc
find_delivery-id id (x ∷ ds) d e = ground (arith, find_delivery-id id ds d)

some_injective : {x y : DeliveryRow} → some x ≡ some y → x ≡ y
some_injective e = ground arith

-- A change without concurrent requests, by the id of the delivery.
change_by_id :
    (key now : ℕ) (target : DeliveryStatus) (d : DeliveryRow) (sale : Sale) (s s' : Depot)
    → find_delivery key s.deliveries ≡ some d
    → find_sale d.order s.shop.sales ≡ some sale
    → update_delivery_status key target now (λ x. x) s ≡ (ok tt, s')
    → (find_delivery key s'.deliveries ≡ some (set_delivery target now d))
      × (find_sale d.order s'.shop.sales ≡ some (order_after sale target sale))
      × Disposes
          (delivery_disposition target sale.base.status (reservation_items sale.base.items))
          sale.base
          s.shop.db
          s'.shop.db
change_by_id key now target d sale s s' here order e =
    let (_, _, h) =
      update_delivery_status-Changed key now target (λ x. x) s s'
        (record { delivery = d; sale = sale; depot = s }) (resolved_by_id key d sale s here order)
        e in
    let id : d.id ≡ key = find_delivery-id key s.deliveries d here in
    let owner : sale.base.id ≡ d.order = find_sale-id d.order s.shop.sales sale order in
    let same : h.current ≡ d =
      some_injective
        (sym (subst (λ k. find_delivery k s.deliveries ≡ some h.current) id h.was_found) ∙ here) in
    (
      subst (λ x. find_delivery key s'.deliveries ≡ some (set_delivery target now x)) same
          (subst (λ k. find_delivery k s'.deliveries ≡ some (set_delivery target now h.current)) id
            h.now_found),
      subst (λ k. find_sale k s'.shop.sales ≡ some (order_after sale target sale)) owner
          (h.synced_order sale
            (subst (λ k. find_sale k s.shop.sales ≡ some sale) (sym owner) order)),
      h.stock,
    )

cancelling_packed :
    (o : Order) (i : ReservationItem) (is : List ReservationItem) (db db' : Db)
    → reservation_items o.items ≡ i ∷ is
    → already_restocked (some o.id) db ≡ false
    → Disposes
        (delivery_disposition DeliveryStatus.cancelled OrderStatus.packed
          (reservation_items o.items))
        o
        db
        db'
    → Moves Restocks
        (λ k. demand (keys db.products) k (reservation_items o.items))
        db.products
        db'.products
unfolding delivery_disposition disposition_of
cancelling_packed o i is db db' some_items fresh h =
    elim (subst
      (λ (items : List ReservationItem).
        Disposes (delivery_disposition DeliveryStatus.cancelled OrderStatus.packed items) o db db')
      some_items h) [
        | inl (again, _) ↦ absurd (false≢true (sym fresh ∙ again))
        | inr (first, moves) ↦ moves
      ]

-- An order in PENDING_PAYMENT with products, never restocked, whose delivery is moved to PACKED and then
-- to CANCELLED, with no other request in between: the order was PACKED without a payment or a
-- deduction, and in the end the quantities of its lines are credited to the shelf and taken off the
-- sales though they were never sold, while every product's reserve stays as it was.
pub update_delivery_status-strands :
    (key now now' : ℕ) (d : DeliveryRow) (sale : Sale) (i : ReservationItem)
    (is : List ReservationItem) (s packed cancelled : Depot)
    → find_delivery key s.deliveries ≡ some d
    → find_sale d.order s.shop.sales ≡ some sale
    → sale.base.status ≡ OrderStatus.pending_payment
    → reservation_items sale.base.items ≡ i ∷ is
    → update_delivery_status key DeliveryStatus.packed now (λ x. x) s ≡ (ok tt, packed)
    → already_restocked (some sale.base.id) packed.shop.db ≡ false
    → update_delivery_status key DeliveryStatus.cancelled now' (λ x. x) packed ≡ (ok tt, cancelled)
    → Moves Restocks
        (λ k. demand (keys s.shop.db.products) k (reservation_items sale.base.items))
        s.shop.db.products
        cancelled.shop.db.products
unfolding delivery_disposition order_after order_status_of synced set_delivery
update_delivery_status-strands key now now' d sale i is s packed cancelled here order unpaid lines e
      fresh e' =
    let (here', order', same) =
      change_by_id key now DeliveryStatus.packed d sale s packed here order e in
    let (_, _, stock) =
      change_by_id key now' DeliveryStatus.cancelled (set_delivery DeliveryStatus.packed now d)
        (order_after sale DeliveryStatus.packed sale) packed cancelled here' order' e' in
    let moves =
      cancelling_packed (order_after sale DeliveryStatus.packed sale).base i is packed.shop.db
        cancelled.shop.db lines fresh stock in
    rw (← same) moves
