-- ===== src/Orders/Tests.antt =====
-- A shop with three orders for the shelf of honey, and the theorems on its handlers and its sweep.
use vedhicfoods.Prelude.{ℕ, ◌≡◌, refl, true, none, some, List, [], ◌∷◌}
use vedhicfoods.Prelude.Int.{pos}
use vedhicfoods.Result.{Result, ok, err}
use vedhicfoods.Inventory.State.{InventoryStatus, Db}
use vedhicfoods.Inventory.Service.{audited, restock_order, release_reservation, already_restocked}
use vedhicfoods.Inventory.Moves.{keys, demand, Moves}
use vedhicfoods.Inventory.Conservation.{Restocks}
use vedhicfoods.Staff.Privilege.{RoleName}
use vedhicfoods.Orders.Status.{
  OrderStatus, is_valid_order_transition, inventory_disposition_for_transition,
}
use vedhicfoods.Orders.Lifecycle.{History, start, next}
use vedhicfoods.Orders.Store.{
  update_order, reservation_items, Order, OrderItem, Store, DeliveryStatus, find_order,
  find_order_by_key, set_status,
}
use vedhicfoods.Orders.Handlers.{
  commit_status, is_privileged_actor, order_access_token_matches_order, apply_disposition,
  answer_cancellation, cancel_delivery, answer_status, Caller, cancel_order, update_order_status,
  commit_cancellation, cancellation_disposition,
}
use vedhicfoods.Orders.Cancellation.{MayCancel, cancel_order-200}
use vedhicfoods.Orders.Updates.{Updated, update_order_status-Updated, update_order_status-strands}
use vedhicfoods.Orders.Sweep.{reap, ReservationSweepResult, run_once, find_stale, is_stale}
use vedhicfoods.Orders.Reaping.{run_once-cancels}

-- Eight jars on the shelf and two held for order 11.
abbrev pub honey : Db
honey = record {
  products =
      record {
        id = 1;
        slug = 101;
        stock = 8;
        inventory = some (record {
          available = 8;
          reserved = 2;
          sold = 5;
          threshold = 10;
          status = InventoryStatus.low_stock;
        });
      }
      ∷ [];
  logs = [];
  audits = [];
  catalog_cached = true;
}

abbrev jars : ℕ → List OrderItem
jars n = record { product = some 1; quantity = n } ∷ record { product = none; quantity = 1 } ∷ []

abbrev pub unpaid : Order
unpaid = record {
  id = 11;
  number = 711;
  user = 50;
  email = 60;
  status = OrderStatus.pending_payment;
  items = jars 2;
  delivery = none;
  created_at = 1000;
}

abbrev pub paid : Order
paid = record {
  id = 12;
  number = 712;
  user = 51;
  email = 61;
  status = OrderStatus.confirmed;
  items = jars 1;
  delivery = some DeliveryStatus.pending;
  created_at = 2000;
}

abbrev recent : Order
recent = record unpaid { id = 13; number = 713; created_at = 9000 }

abbrev pub shop : Store
shop = record {
  db = honey;
  orders = paid ∷ unpaid ∷ recent ∷ [];
  delivery_history = [];
  notices = [];
}

abbrev left : Result Store → Store
left (ok s) = s
left (err e) = shop

abbrev customer : Caller
customer = record {
  user = 51;
  email = 61;
  role = RoleName.customer;
  roles = [];
  permissions = [];
  order_access = none;
}

abbrev cancelled_shop : Store
cancelled_shop = (cancel_order (some customer) 712 shop).1

abbrev stranger_code : ℕ
stranger_code = (cancel_order (some (record customer { user = 1; email = 2 })) 712 shop).0

-- A stranger is told that there is no such order.
cancel_by_stranger : stranger_code ≡ 404
unfolding cancel_order find_order_by_key answer_cancellation order_access_token_matches_order
    is_privileged_actor
cancel_by_stranger = refl

cancel_order-200_example :
    (c : Caller) × (o : Order) × (some customer ≡ some c)
    × (find_order_by_key 712 shop.orders ≡ some o)
    × MayCancel c o
    × (commit_cancellation o shop ≡ ok cancelled_shop)
unfolding cancel_order find_order_by_key answer_cancellation order_access_token_matches_order
    is_privileged_actor commit_cancellation apply_disposition cancellation_disposition restock_order
    reservation_items cancel_delivery
cancel_order-200_example = cancel_order-200 (some customer) 712 shop cancelled_shop refl

abbrev packed_shop : Store
packed_shop = (update_order_status 12 (some OrderStatus.packed) shop).1

update_order_status-Updated_example : Updated paid 12 OrderStatus.packed shop packed_shop
unfolding find_order update_order_status answer_status is_valid_order_transition commit_status
    apply_disposition inventory_disposition_for_transition
update_order_status-Updated_example =
    update_order_status-Updated 12 paid OrderStatus.packed shop packed_shop refl refl

abbrev confirmed_shop : Store
confirmed_shop = (update_order_status 11 (some OrderStatus.confirmed) shop).1

abbrev stranded_shop : Store
stranded_shop = (update_order_status 11 (some OrderStatus.cancelled) confirmed_shop).1

-- Two jars of honey are still reserved, and two jars that nobody had bought are on the shelf.
update_order_status-strands_example :
    Moves Restocks
      (λ i. demand (keys honey.products) i (record { product = 1; quantity = pos 2 } ∷ []))
      honey.products
      stranded_shop.db.products
unfolding find_order update_order_status already_restocked answer_status is_valid_order_transition
    commit_status apply_disposition inventory_disposition_for_transition audited update_order
    restock_order reservation_items
update_order_status-strands_example =
    update_order_status-strands 11 unpaid shop confirmed_shop stranded_shop refl refl refl refl refl

-- No other transaction runs.
abbrev quiet : ℕ → Store → Store
quiet id s = s

abbrev swept : Result (ReservationSweepResult × Store)
swept = run_once quiet 10_000 5_000 50 true shop

abbrev report : Result (ReservationSweepResult × Store) → ReservationSweepResult × Store
report (ok r) = r
report (err e) = (record { scanned = 0; reaped = 0 }, shop)

swept_one : (report swept).0 ≡ record { scanned = 1; reaped = 1 }
unfolding run_once find_order reap reservation_items release_reservation
swept_one = refl

run_once-cancels_example :
    find_order 11 (report swept).1.orders ≡ some (set_status OrderStatus.cancelled unpaid)
unfolding find_order is_stale find_stale run_once reap reservation_items release_reservation
run_once-cancels_example =
    run_once-cancels quiet 10_000 5_000 50 11 shop (report swept).1 (report swept).0 unpaid
      (λ k s. refl) refl refl refl refl

abbrev Delivered : Type 0
Delivered = History OrderStatus.confirmed OrderStatus.delivered

delivered_order : Delivered
unfolding is_valid_order_transition
delivered_order =
    next {t = OrderStatus.shipped}
      (next {t = OrderStatus.packed} (next {t = OrderStatus.confirmed} start refl) refl) refl
