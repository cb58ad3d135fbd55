-- ===== src/Delivery/Status.antt =====
-- backend/src/types/delivery.types.ts: the state machine of a delivery, and the order status that goes
-- with a delivery status.
use vedhicfoods.Prelude.{ℕ, Bool, Option, none, some, List, [], ◌∷◌, any_by, ◌==◌}
use vedhicfoods.Orders.Status.{OrderStatus}
use vedhicfoods.Orders.Store.{DeliveryStatus}

abbrev pub code_of : DeliveryStatus → ℕ
code_of DeliveryStatus.pending = 0
code_of DeliveryStatus.assigned = 1
code_of DeliveryStatus.picked_up = 2
code_of DeliveryStatus.in_transit = 3
code_of DeliveryStatus.out_for_delivery = 4
code_of DeliveryStatus.delivered = 5
code_of DeliveryStatus.failed = 6
code_of DeliveryStatus.returned = 7
code_of DeliveryStatus.packed = 8
code_of DeliveryStatus.shipped = 9
code_of DeliveryStatus.cancelled = 10

abbrev pub same_delivery : DeliveryStatus → DeliveryStatus → Bool
same_delivery s t = code_of s == code_of t

-- `VALID_DELIVERY_TRANSITIONS`
unfoldable pub valid_delivery_transitions : DeliveryStatus → List DeliveryStatus
valid_delivery_transitions DeliveryStatus.pending =
    DeliveryStatus.assigned ∷ DeliveryStatus.packed ∷ DeliveryStatus.cancelled ∷ []
valid_delivery_transitions DeliveryStatus.assigned =
    DeliveryStatus.packed ∷ DeliveryStatus.shipped ∷ DeliveryStatus.cancelled ∷ []
valid_delivery_transitions DeliveryStatus.packed =
    DeliveryStatus.assigned ∷ DeliveryStatus.shipped ∷ DeliveryStatus.cancelled ∷ []
valid_delivery_transitions DeliveryStatus.shipped =
    DeliveryStatus.out_for_delivery ∷ DeliveryStatus.failed ∷ DeliveryStatus.cancelled ∷ []
valid_delivery_transitions DeliveryStatus.out_for_delivery =
    DeliveryStatus.delivered ∷ DeliveryStatus.failed ∷ DeliveryStatus.returned
    ∷ DeliveryStatus.cancelled ∷ []
valid_delivery_transitions DeliveryStatus.delivered = []
valid_delivery_transitions DeliveryStatus.failed =
    DeliveryStatus.out_for_delivery ∷ DeliveryStatus.returned ∷ DeliveryStatus.cancelled ∷ []
valid_delivery_transitions DeliveryStatus.returned = DeliveryStatus.cancelled ∷ []
valid_delivery_transitions DeliveryStatus.cancelled = []
valid_delivery_transitions DeliveryStatus.picked_up =
    DeliveryStatus.in_transit ∷ DeliveryStatus.shipped ∷ DeliveryStatus.out_for_delivery
    ∷ DeliveryStatus.cancelled ∷ []
valid_delivery_transitions DeliveryStatus.in_transit =
    DeliveryStatus.out_for_delivery ∷ DeliveryStatus.delivered ∷ DeliveryStatus.failed
    ∷ DeliveryStatus.cancelled ∷ []

unfoldable pub is_valid_delivery_transition : DeliveryStatus → DeliveryStatus → Bool
is_valid_delivery_transition from to = any_by (same_delivery to) (valid_delivery_transitions from)

-- `DELIVERY_TO_ORDER_STATUS_MAP`
unfoldable pub order_status_of : DeliveryStatus → Option OrderStatus
order_status_of DeliveryStatus.packed = some OrderStatus.packed
order_status_of DeliveryStatus.shipped = some OrderStatus.shipped
order_status_of DeliveryStatus.out_for_delivery = some OrderStatus.out_for_delivery
order_status_of DeliveryStatus.delivered = some OrderStatus.delivered
order_status_of DeliveryStatus.cancelled = some OrderStatus.cancelled
order_status_of _ = none
