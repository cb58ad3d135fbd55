-- ===== src/Orders/Store.antt =====
-- The tables that the order handlers read and write, and what they send out. Ids, order numbers and
-- e-mail addresses (in lower case) are only compared: they are numbers.
use vedhicfoods.Prelude.{ℕ, ◌||◌, Option, none, some, List, [], ◌∷◌, ◌==◌, if◌then◌else◌}
use vedhicfoods.Prelude.Int.{pos}
use vedhicfoods.Inventory.State.{Db, ReservationItem}
use vedhicfoods.Orders.Status.{OrderStatus}

pub data DeliveryStatus : Type 0 where
  pending assigned picked_up in_transit out_for_delivery delivered failed returned packed shipped
        cancelled :
      DeliveryStatus

-- A line of an order; the product is unset once its row is deleted.
pub record OrderItem : Type 0 where
  pub product : Option ℕ
  pub quantity : ℕ

pub record Order : Type 0 where
  pub id : ℕ
  pub number : ℕ
  pub user : ℕ
  pub email : ℕ
  pub status : OrderStatus
  pub items : List OrderItem
  pub delivery : Option DeliveryStatus
  pub created_at : ℕ

-- A message that a handler sends out: the customer's cancellation notice, or the realtime event
-- `order.updated`.
pub data Notice : Type 0 where
  mail_cancelled : ℕ → Notice
  order_updated : ℕ → OrderStatus → OrderStatus → Notice

pub record Store : Type 0 where
  pub db : Db
  pub orders : List Order
  pub delivery_history : List (ℕ × DeliveryStatus)
  pub notices : List Notice

-- `findUnique({ where: { id } })`
unfoldable pub find_order : ℕ → List Order → Option Order
find_order id [] = none
find_order id (o ∷ os) = if o.id == id then some o else find_order id os

-- `findFirst` by id or order number.
unfoldable pub find_order_by_key : ℕ → List Order → Option Order
find_order_by_key key [] = none
find_order_by_key key (o ∷ os) =
    if o.id == key || o.number == key then some o else find_order_by_key key os

-- `order.update({ where: { id }, data })`: ids are unique.
unfoldable pub update_order : ℕ → (Order → Order) → List Order → List Order
update_order id change [] = []
update_order id change (o ∷ os) =
    if o.id == id then change o ∷ os else o ∷ update_order id change os

abbrev pub set_status : OrderStatus → Order → Order
set_status status o = record o { status = status }

-- `.filter((i) => i.productId).map((i) => ({ productId, quantity }))`
unfoldable pub reservation_items : List OrderItem → List ReservationItem
reservation_items [] = []
reservation_items (i ∷ is) = elim i.product [
  | none ↦ reservation_items is
  | some product ↦ record { product = product; quantity = pos i.quantity } ∷ reservation_items is
]
