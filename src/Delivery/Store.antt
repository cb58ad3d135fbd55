-- ===== src/Delivery/Store.antt =====
-- backend/src/services/delivery.service.ts: the table of deliveries, and `resolveDelivery`, which
-- writes a row for an order that has none. The status of a delivery stands in its own table here,
-- and `base.delivery` of an order is not read. Courier, tracking number, recipient and notes are
-- left out.
use vedhicfoods.Prelude.{ℕ, ◌+◌, Option, none, some, List, [], ◌∷◌, ◌==◌, if◌then◌else◌}
use vedhicfoods.Result.{Result, ok, err, not_found, database}
use vedhicfoods.Orders.Status.{OrderStatus, same_status}
use vedhicfoods.Orders.Store.{DeliveryStatus}
use vedhicfoods.Checkout.Shop.{Shop, Sale, find_sale}
use vedhicfoods.Payments.Failing.{find_sale_by_key}

-- A row of `deliveries`.
pub record DeliveryRow : Type 0 where
  pub id : ℕ
  pub order : ℕ
  pub assigned_staff : Option ℕ
  pub status : DeliveryStatus
  pub delivered_at : Option ℕ

-- The history is that of the shop, by order.
pub record Depot : Type 0 where
  pub shop : Shop
  pub deliveries : List DeliveryRow

unfoldable pub find_delivery : ℕ → List DeliveryRow → Option DeliveryRow
find_delivery id [] = none
find_delivery id (d ∷ ds) = if d.id == id then some d else find_delivery id ds

-- `delivery.findUnique({ where: { orderId } })`
unfoldable pub find_of_order : ℕ → List DeliveryRow → Option DeliveryRow
find_of_order order [] = none
find_of_order order (d ∷ ds) = if d.order == order then some d else find_of_order order ds

unfoldable pub update_delivery :
    ℕ → (DeliveryRow → DeliveryRow) → List DeliveryRow → List DeliveryRow
update_delivery id change [] = []
update_delivery id change (d ∷ ds) =
    if d.id == id then change d ∷ ds else d ∷ update_delivery id change ds

unfoldable pub with_history : ℕ → DeliveryStatus → Shop → Shop
with_history order status s = record s { delivery_history = (order, status) ∷ s.delivery_history }

-- A delivery, its order, and the tables.
pub record Resolved : Type 0 where
  pub delivery : DeliveryRow
  pub sale : Sale
  pub depot : Depot

-- The row that is written for an order without one.
unfoldable pub provision : Sale → Depot → Resolved
provision sale s =
    let initial =
      if same_status sale.base.status OrderStatus.cancelled
      then DeliveryStatus.cancelled
      else DeliveryStatus.pending in
    let row : DeliveryRow = record {
      id = s.shop.next_id;
      order = sale.base.id;
      assigned_staff = none;
      status = initial;
      delivered_at = none;
    } in
    record {
      delivery = row;
      sale = sale;
      depot = record {
        shop = with_history sale.base.id initial (record s.shop { next_id = s.shop.next_id + 1 });
        deliveries = row ∷ s.deliveries;
      };
    }

unfoldable pub resolve_of_sale : Sale → Depot → Resolved
resolve_of_sale sale s = elim (find_of_order sale.base.id s.deliveries) [
  | some d ↦ record { delivery = d; sale = sale; depot = s }
  | none ↦ provision sale s
]

unfoldable pub resolve_by_key : ℕ → Depot → Result Resolved
resolve_by_key key s = elim (find_sale_by_key key s.shop.sales) [
  | none ↦ err not_found
  | some sale ↦ ok (resolve_of_sale sale s)
]

-- `resolveDelivery`; the order of a row exists by its foreign key.
unfoldable pub resolve_delivery : ℕ → Depot → Result Resolved
resolve_delivery key s = elim (find_delivery key s.deliveries) [
  | none ↦ resolve_by_key key s
  | some d ↦ elim (find_sale d.order s.shop.sales) [
    | none ↦ err database
    | some sale ↦ ok (record { delivery = d; sale = sale; depot = s })
  ]
]

-- A provisioned row stays when the call is refused later.
abbrev pub Answer : Type 0
Answer = Result (Unit {0}) × Depot

abbrev pub committed : Depot → Result Depot → Answer
committed s (err e) = (err e, s)
committed s (ok s') = (ok tt, s')
