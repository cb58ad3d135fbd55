-- ===== src/Orders/Status.antt =====
-- backend/src/utils/order-status.ts: the transition matrix of the order lifecycle and the effect of
-- a transition on stock.
use vedhicfoods.Prelude.{ℕ, Bool, ◌&&◌, not, List, [], ◌∷◌, any_by, ◌==◌, if◌then◌else◌}

pub data OrderStatus : Type 0 where
  pending confirmed packed shipped out_for_delivery delivered cancelled processing failed
        pending_payment payment_failed :
      OrderStatus

-- The strings of the enumeration are only compared.
abbrev pub code : OrderStatus → ℕ
code pending = 0
code confirmed = 1
code packed = 2
code shipped = 3
code out_for_delivery = 4
code delivered = 5
code cancelled = 6
code processing = 7
code failed = 8
code pending_payment = 9
code payment_failed = 10

abbrev pub same_status : OrderStatus → OrderStatus → Bool
same_status s t = code s == code t

-- `list.includes(status)`
abbrev pub includes : List OrderStatus → OrderStatus → Bool
includes list status = any_by (same_status status) list

-- The table `TRANSITIONS`.
unfoldable pub allowed_order_transitions : OrderStatus → List OrderStatus
allowed_order_transitions pending = pending_payment ∷ confirmed ∷ cancelled ∷ []
allowed_order_transitions pending_payment = confirmed ∷ payment_failed ∷ cancelled ∷ []
allowed_order_transitions payment_failed = pending_payment ∷ confirmed ∷ cancelled ∷ []
allowed_order_transitions confirmed = processing ∷ packed ∷ cancelled ∷ failed ∷ []
allowed_order_transitions processing = packed ∷ failed ∷ cancelled ∷ []
allowed_order_transitions packed = shipped ∷ failed ∷ cancelled ∷ []
allowed_order_transitions shipped = out_for_delivery ∷ delivered ∷ []
allowed_order_transitions out_for_delivery = delivered ∷ failed ∷ []
allowed_order_transitions delivered = []
allowed_order_transitions cancelled = []
allowed_order_transitions failed = []

unfoldable pub is_valid_order_transition : OrderStatus → OrderStatus → Bool
unfolding allowed_order_transitions
is_valid_order_transition from to = includes (allowed_order_transitions from) to

abbrev pub restocking_from : List OrderStatus
restocking_from = cancelled ∷ failed ∷ []

unfoldable pub should_restock_on_transition : OrderStatus → OrderStatus → Bool
should_restock_on_transition from to =
    includes restocking_from to && not (includes restocking_from from)

pub data InventoryDisposition : Type 0 where
  release restock leave : InventoryDisposition

abbrev pub reservation_only_from : List OrderStatus
reservation_only_from = pending_payment ∷ []

abbrev pub deducted_from : List OrderStatus
deducted_from = confirmed ∷ processing ∷ packed ∷ shipped ∷ out_for_delivery ∷ []

abbrev pub no_allocation_from : List OrderStatus
no_allocation_from = pending ∷ payment_failed ∷ failed ∷ cancelled ∷ delivered ∷ []

-- `leave` is the source's 'none'.
unfoldable pub inventory_disposition_for_transition :
    OrderStatus → OrderStatus → InventoryDisposition
unfolding is_valid_order_transition
inventory_disposition_for_transition from to =
    if not (is_valid_order_transition from to)
    then leave
    else if not (includes restocking_from to)
    then leave
    else if includes reservation_only_from from
    then release
    else if includes deducted_from from
    then restock
    else if includes no_allocation_from from
    then leave
    else leave
