-- ===== src/Checkout/Agreement.antt =====
-- `transitionOrderStatus` of backend/src/services/checkout.service.ts beside `updateOrderStatus` of
-- backend/src/controllers/order.controller.ts, which are two ways to change the status of an order.
use vedhicfoods.Prelude.{
  ◌≡◌, ◌⊎◌, inl, inr, refl, ap, Bool, true, false, some, arith, Bool-cases, ◌&&◌, ◌||◌,
}
use vedhicfoods.Result.{Result, ok, err, Result-cases}
use vedhicfoods.Inventory.State.{AuditAction}
use vedhicfoods.Inventory.Service.{audited}
use vedhicfoods.Orders.Status.{
  OrderStatus, same_status, includes, InventoryDisposition, is_valid_order_transition,
  inventory_disposition_for_transition,
}
use vedhicfoods.Orders.Store.{Order, Store, find_order, reservation_items}
use vedhicfoods.Orders.Handlers.{
  apply_disposition, commit_status, answer_status, update_order_status, or_fail,
}
use vedhicfoods.Orders.Effects.{cancel_delivery-db}
use vedhicfoods.Checkout.Changes.{write_transition-db}
use vedhicfoods.Checkout.Transitions.{
  valid_order_transitions, disposition_of_cancelled, transition_disposition, write_transition,
  commit_transition, transition, transition_order_status,
}

-- The transitions of the one table that the other does not have.
unfoldable pub is_only_here : OrderStatus → OrderStatus → Bool
is_only_here from to =
    same_status from OrderStatus.pending && same_status to OrderStatus.failed
    || (same_status from OrderStatus.shipped || same_status from OrderStatus.out_for_delivery)
      && same_status to OrderStatus.cancelled

abbrev Agrees : OrderStatus → OrderStatus → Type 0
Agrees from to =
    ((is_valid_order_transition from to ≡ true)
      × (transition_disposition from to ≡ inventory_disposition_for_transition from to))
    ⊎ ((is_only_here from to ≡ true)
        × (is_valid_order_transition from to ≡ false)
        × (transition_disposition from to ≡ InventoryDisposition.leave))

agrees :
    (from to : OrderStatus) → includes (valid_order_transitions from) to ≡ true → Agrees from to
unfolding valid_order_transitions is_valid_order_transition transition_disposition
    disposition_of_cancelled inventory_disposition_for_transition is_only_here
agrees OrderStatus.pending to h = ground arith
agrees OrderStatus.confirmed to h = ground arith
agrees OrderStatus.packed to h = ground arith
agrees OrderStatus.shipped to h = ground arith
agrees OrderStatus.out_for_delivery to h = ground arith
agrees OrderStatus.delivered to h = ground arith
agrees OrderStatus.cancelled to h = ground arith
agrees OrderStatus.processing to h = ground arith
agrees OrderStatus.failed to h = ground arith
agrees OrderStatus.pending_payment to h = ground arith
agrees OrderStatus.payment_failed to h = ground arith

not_same :
    (from to : OrderStatus)
    → includes (valid_order_transitions from) to ≡ true
    → same_status from to ≡ false
unfolding valid_order_transitions
not_same OrderStatus.pending to h = ground arith
not_same OrderStatus.confirmed to h = ground arith
not_same OrderStatus.packed to h = ground arith
not_same OrderStatus.shipped to h = ground arith
not_same OrderStatus.out_for_delivery to h = ground arith
not_same OrderStatus.delivered to h = ground arith
not_same OrderStatus.cancelled to h = ground arith
not_same OrderStatus.processing to h = ground arith
not_same OrderStatus.failed to h = ground arith
not_same OrderStatus.pending_payment to h = ground arith
not_same OrderStatus.payment_failed to h = ground arith

-- The tables after a call that rolls back where it throws.
unfoldable pub kept : Store → Result (Order × Store) → Store
kept s (err e) = s
kept s (ok r) = r.1

write_transition-same :
    (o : Order) (new : OrderStatus) (s : Store)
    → (write_transition o new s).db ≡ audited AuditAction.order_status_updated (some o.id) s.db
unfolding write_transition audited
write_transition-same o new s = elim (Bool-cases (same_status new OrderStatus.cancelled)) [
  | inl cancels ↦
      rw (write_transition, cancels)
        (ap (audited AuditAction.order_status_updated (some o.id)) (cancel_delivery-db o s))
  | inr goes_on ↦ rw (write_transition, goes_on) refl
]

commit-same :
    (o : Order) (new : OrderStatus) (s : Store)
    → transition_disposition o.status new ≡ inventory_disposition_for_transition o.status new
    → (kept s (commit_transition o new s)).db ≡ (or_fail s (commit_status o new s)).1.db
unfolding commit_transition commit_status kept
commit-same o new s same =
    elim (Result-cases (
      apply_disposition (inventory_disposition_for_transition o.status new)
        (reservation_items o.items) o.id s.db)) [
          | inl (thrown, refused) ↦ rw (commit_transition, commit_status, same, refused) refl
          | inr (r, done) ↦
              rw (commit_transition, commit_status, same, done)
                (write_transition-same o new (record s { db = r.1 }))
        ]

commit-leaves :
    (o : Order) (new : OrderStatus) (s : Store)
    → transition_disposition o.status new ≡ InventoryDisposition.leave
    → (kept s (commit_transition o new s)).db.products ≡ s.db.products
unfolding commit_transition kept apply_disposition
commit-leaves o new s leaves =
    rw (commit_transition, leaves) (write_transition-db o new (record s { db = s.db }))

-- `transitionOrderStatus` and `updateOrderStatus` on an order and a status that the table of the first
-- allows: either the second allows it too, and both leave the same inventory tables behind; or it is
-- PENDING to FAILED, SHIPPED to CANCELLED or OUT_FOR_DELIVERY to CANCELLED, which the second refuses
-- with 409, and the first leaves all stock as it was.
pub transition_order_status-update_order_status :
    (o : Order) (new : OrderStatus) (s : Store)
    → find_order o.id s.orders ≡ some o
    → includes (valid_order_transitions o.status) new ≡ true
    → ((is_valid_order_transition o.status new ≡ true)
        × ((kept s (transition_order_status o.id new s)).db
            ≡ (update_order_status o.id (some new) s).1.db))
      ⊎ ((is_only_here o.status new ≡ true)
          × (update_order_status o.id (some new) s ≡ (409, s))
          × ((kept s (transition_order_status o.id new s)).db.products ≡ s.db.products))
unfolding transition_order_status transition update_order_status answer_status
transition_order_status-update_order_status o new s found allowed =
    let differs = not_same o.status new allowed in
    elim (agrees o.status new allowed) [
      | inl (valid, same) ↦ inl (
        valid,
        rw
            (
              transition_order_status, update_order_status, found, transition, answer_status,
              differs, allowed, valid,
            )
            (commit-same o new s same),
      )
      | inr (only, invalid, leaves) ↦ inr (
        only,
        rw (update_order_status, found, answer_status, differs, invalid) refl,
        rw (transition_order_status, found, transition, differs, allowed)
            (commit-leaves o new s leaves),
      )
    ]
