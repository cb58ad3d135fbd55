-- ===== src/Checkout/TransitionTests.antt =====
-- The two ways to change the status of an order, on the shop of the order handlers.
use vedhicfoods.Inventory.Service.{restock_order}
use vedhicfoods.Prelude.{◌≡◌, ◌⊎◌, refl, true, some}
use vedhicfoods.Orders.Status.{OrderStatus, is_valid_order_transition}
use vedhicfoods.Orders.Store.{reservation_items, Order, Store, find_order}
use vedhicfoods.Orders.Handlers.{apply_disposition, update_order_status}
use vedhicfoods.Orders.Tests.{paid, shop}
use vedhicfoods.Checkout.Transitions.{
  disposition_of_cancelled, commit_transition, valid_order_transitions, write_transition,
  transition, transition_disposition, transition_order_status,
}
use vedhicfoods.Checkout.Agreement.{is_only_here, kept, transition_order_status-update_order_status}

-- The paid order is cancelled.
abbrev cancelled_shop : Store
cancelled_shop = kept shop (transition_order_status 12 OrderStatus.cancelled shop)

abbrev cancelled_order : Order
cancelled_order = record paid { status = OrderStatus.cancelled }

transition_order_status-update_order_status_example :
    ((is_valid_order_transition OrderStatus.confirmed OrderStatus.cancelled ≡ true)
      × ((kept shop (transition_order_status 12 OrderStatus.cancelled shop)).db
          ≡ (update_order_status 12 (some OrderStatus.cancelled) shop).1.db))
    ⊎ ((is_only_here OrderStatus.confirmed OrderStatus.cancelled ≡ true)
        × (update_order_status 12 (some OrderStatus.cancelled) shop ≡ (409, shop))
        × ((kept shop (transition_order_status 12 OrderStatus.cancelled shop)).db.products
            ≡ shop.db.products))
unfolding apply_disposition commit_transition disposition_of_cancelled find_order kept
    reservation_items restock_order transition transition_disposition transition_order_status
    valid_order_transitions write_transition
transition_order_status-update_order_status_example =
    transition_order_status-update_order_status paid OrderStatus.cancelled shop refl refl
