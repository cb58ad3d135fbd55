-- ===== src/Checkout/Changes.antt =====
-- What `transitionOrderStatus` of backend/src/services/checkout.service.ts does to the order, its
-- delivery and its stock.
use vedhicfoods.Prelude.{
  ◌≡◌, ◌⊎◌, inl, inr, refl, ap, true, Option, none, some, Bool-cases, if◌then◌else◌,
}
use vedhicfoods.Inventory.Service.{audited}
use vedhicfoods.Orders.Status.{OrderStatus, same_status, includes}
use vedhicfoods.Orders.Store.{Order, Store, DeliveryStatus, find_order, set_status}
use vedhicfoods.Orders.Effects.{Disposes, cancel_delivery-db}
use vedhicfoods.Checkout.Transitions.{
  valid_order_transitions, transition_disposition, write_transition,
}

-- The order after a transition: its delivery, if it has one, is cancelled with it.
unfoldable pub cancelled_delivery : Option DeliveryStatus → Option DeliveryStatus
cancelled_delivery none = none
cancelled_delivery (some d) = some DeliveryStatus.cancelled

unfoldable pub transitioned : OrderStatus → Order → Order
transitioned new o =
    if same_status new OrderStatus.cancelled
    then record o { status = new; delivery = cancelled_delivery o.delivery }
    else set_status new o

pub write_transition-db :
    (o : Order) (new : OrderStatus) (s : Store)
    → (write_transition o new s).db.products ≡ s.db.products
unfolding write_transition audited
write_transition-db o new s = elim (Bool-cases (same_status new OrderStatus.cancelled)) [
  | inl cancels ↦ rw (write_transition, cancels) (ap (λ db. db.products) (cancel_delivery-db o s))
  | inr goes_on ↦ rw (write_transition, goes_on) refl
]

-- What a success means for an order: nothing to do, or a transition of the table.
abbrev pub Transitioned : Order → OrderStatus → Order → Store → Store → Type 0
Transitioned o new answer s s' =
    ((same_status o.status new ≡ true) × (answer ≡ o) × (s' ≡ s))
    ⊎ ((includes (valid_order_transitions o.status) new ≡ true)
        × (answer ≡ set_status new o)
        × Disposes (transition_disposition o.status new) o s.db s'.db
        × (find_order o.id s'.orders ≡ some (transitioned new o)))
