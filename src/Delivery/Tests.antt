-- ===== src/Delivery/Tests.antt =====
-- The delivery of an unpaid order for two jars of honey, and the theorems on it.
use vedhicfoods.Orders.Handlers.{apply_disposition}
use vedhicfoods.Payments.Gateway.{noted}
use vedhicfoods.Inventory.State.{with_product}
use vedhicfoods.Inventory.Rows.{write_row, restock_row, compute_status, release_row}
use vedhicfoods.Payments.Failing.{find_sale_by_key}
use vedhicfoods.Inventory.Service.{
  audited, move_row, already_restocked, restock_order, for_items, insert_item, sort_items, save,
  credit_item, move_item, is_restock_of, record_log, release_reservation, get_or_create,
}
use vedhicfoods.Prelude.{◌≡◌, refl, none, some, [], ◌∷◌}
use vedhicfoods.Prelude.Int.{pos}
use vedhicfoods.Result.{err, conflict}
use vedhicfoods.Inventory.Moves.{keys, demand, Moves}
use vedhicfoods.Inventory.Conservation.{Restocks}
use vedhicfoods.Orders.Store.{reservation_items, DeliveryStatus}
use vedhicfoods.Orders.Tests.{honey, unpaid}
use vedhicfoods.Checkout.Shop.{find_sale, update_sale, Sale}
use vedhicfoods.Checkout.Tests.{shop, unused}
use vedhicfoods.Delivery.Status.{
  valid_delivery_transitions, order_status_of, is_valid_delivery_transition,
}
use vedhicfoods.Delivery.Store.{
  resolve_by_key, with_history, resolve_delivery, provision, resolve_of_sale, find_of_order,
  DeliveryRow, Depot, find_delivery, update_delivery,
}
use vedhicfoods.Delivery.Service.{
  collected, delivery_disposition, assign, is_unchanged, with_delivery, commit_change, set_delivery,
  disposition_of, sync_order, collects, change_status, synced, update_delivery_status, assign_staff,
}
use vedhicfoods.Delivery.Following.{Follows, update_delivery_status-Follows}
use vedhicfoods.Delivery.Stranding.{assign_staff-overwrites, update_delivery_status-strands}

abbrev sale : Sale
sale = record unused { base = unpaid }

abbrev row : DeliveryRow
row = record {
  id = 31;
  order = 11;
  assigned_staff = none;
  status = DeliveryStatus.pending;
  delivered_at = none;
}

abbrev depot : Depot
depot = record { shop = record shop { db = honey; sales = sale ∷ [] }; deliveries = row ∷ [] }

-- Another request cancels the delivery.
abbrev cancelling : Depot → Depot
cancelling s = record s {
  deliveries =
      update_delivery 31 (λ d. record d { status = DeliveryStatus.cancelled }) s.deliveries;
}

abbrev packed : Depot
packed = (update_delivery_status 31 DeliveryStatus.packed 5_000 (λ s. s) depot).1

abbrev cancelled : Depot
cancelled = (update_delivery_status 31 DeliveryStatus.cancelled 6_000 (λ s. s) packed).1

abbrev assigned : Depot
assigned = (assign_staff 31 50 cancelling depot).1

-- The conditional write sees the other request.
packing_cancelled :
    (update_delivery_status 31 DeliveryStatus.packed 5_000 cancelling depot).0 ≡ err conflict
unfolding already_restocked apply_disposition assign assign_staff audited change_status collected
    collects commit_change compute_status credit_item delivery_disposition disposition_of
    find_delivery find_of_order find_sale find_sale_by_key for_items get_or_create insert_item
    is_restock_of is_unchanged is_valid_delivery_transition move_item move_row noted order_status_of
    provision record_log release_reservation release_row reservation_items resolve_by_key
    resolve_delivery resolve_of_sale restock_order restock_row save set_delivery sort_items
    sync_order synced update_delivery update_delivery_status update_sale valid_delivery_transitions
    with_delivery with_history with_product write_row
packing_cancelled = refl

update_delivery_status-Follows_example : Follows DeliveryStatus.packed 5_000 row sale depot packed
unfolding already_restocked apply_disposition assign assign_staff audited change_status collected
    collects commit_change compute_status credit_item delivery_disposition disposition_of
    find_delivery find_of_order find_sale find_sale_by_key for_items get_or_create insert_item
    is_restock_of is_unchanged is_valid_delivery_transition move_item move_row noted order_status_of
    provision record_log release_reservation release_row reservation_items resolve_by_key
    resolve_delivery resolve_of_sale restock_order restock_row save set_delivery sort_items
    sync_order synced update_delivery update_delivery_status update_sale valid_delivery_transitions
    with_delivery with_history with_product write_row
update_delivery_status-Follows_example =
    update_delivery_status-Follows 31 5_000 DeliveryStatus.packed (λ s. s) depot packed
      (record { delivery = row; sale = sale; depot = depot }) refl refl

-- The cancelled delivery is ASSIGNED.
assign_staff-overwrites_example :
    find_delivery 31 assigned.deliveries
    ≡ some (record row { assigned_staff = some 50; status = DeliveryStatus.assigned })
unfolding already_restocked apply_disposition assign assign_staff audited change_status collected
    collects commit_change compute_status credit_item delivery_disposition disposition_of
    find_delivery find_of_order find_sale find_sale_by_key for_items get_or_create insert_item
    is_restock_of is_unchanged is_valid_delivery_transition move_item move_row noted order_status_of
    provision record_log release_reservation release_row reservation_items resolve_by_key
    resolve_delivery resolve_of_sale restock_order restock_row save set_delivery sort_items
    sync_order synced update_delivery update_delivery_status update_sale valid_delivery_transitions
    with_delivery with_history with_product write_row
assign_staff-overwrites_example =
    assign_staff-overwrites 31 50 cancelling depot assigned
      (record { delivery = row; sale = sale; depot = depot })
      (record row { status = DeliveryStatus.cancelled }) refl refl refl

-- Two jars are still held, and two that nobody had bought are on the shelf.
update_delivery_status-strands_example :
    Moves Restocks
      (λ k. demand (keys honey.products) k (record { product = 1; quantity = pos 2 } ∷ []))
      honey.products
      cancelled.shop.db.products
unfolding already_restocked apply_disposition assign assign_staff audited change_status collected
    collects commit_change compute_status credit_item delivery_disposition disposition_of
    find_delivery find_of_order find_sale find_sale_by_key for_items get_or_create insert_item
    is_restock_of is_unchanged is_valid_delivery_transition move_item move_row noted order_status_of
    provision record_log release_reservation release_row reservation_items resolve_by_key
    resolve_delivery resolve_of_sale restock_order restock_row save set_delivery sort_items
    sync_order synced update_delivery update_delivery_status update_sale valid_delivery_transitions
    with_delivery with_history with_product write_row
update_delivery_status-strands_example =
    update_delivery_status-strands 31 5_000 6_000 row sale
      (record { product = 1; quantity = pos 2 }) [] depot packed cancelled refl refl refl refl refl
      refl refl
