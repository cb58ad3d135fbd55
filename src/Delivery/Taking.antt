-- ===== src/Delivery/Taking.antt =====
-- What a change of its delivery means for the stock of an order in
-- backend/src/services/delivery.service.ts, told apart from the tables of the code.
use vedhicfoods.Prelude.{ℕ, ◌≡◌, ◌⊎◌, inl, inr, refl, true, false, some, List, [], ◌∷◌, Bool-cases}
use vedhicfoods.Inventory.State.{Db, ReservationItem}
use vedhicfoods.Inventory.Service.{already_restocked}
use vedhicfoods.Inventory.Moves.{Moves, keys, demand, demand-nil, Moves-none}
use vedhicfoods.Inventory.Conservation.{Releases, Restocks, Releases-IsAction, Restocks-IsAction}
use vedhicfoods.Orders.Status.{OrderStatus}
use vedhicfoods.Orders.Store.{DeliveryStatus, Order, reservation_items}
use vedhicfoods.Orders.Effects.{Disposes}
use vedhicfoods.Delivery.Service.{delivery_disposition, disposition_of}

IsReleased : Order → Db → Db → Type 0
IsReleased o db db' =
    Moves Releases (λ i. demand (keys db.products) i (reservation_items o.items)) db.products
      db'.products

IsRestockedOnce : Order → Db → Db → Type 0
IsRestockedOnce o db db' =
    ((already_restocked (some o.id) db ≡ true) × (db'.products ≡ db.products))
    ⊎ ((already_restocked (some o.id) db ≡ false)
        × Moves Restocks (λ i. demand (keys db.products) i (reservation_items o.items)) db.products
            db'.products)

-- Stock before and after an order is taken back, by the status that the order had.
pub TakenBack : OrderStatus → Order → Db → Db → Type 0
TakenBack OrderStatus.confirmed o db db' = IsRestockedOnce o db db'
TakenBack OrderStatus.processing o db db' = IsRestockedOnce o db db'
TakenBack OrderStatus.packed o db db' = IsRestockedOnce o db db'
TakenBack OrderStatus.shipped o db db' = IsRestockedOnce o db db'
TakenBack OrderStatus.out_for_delivery o db db' = IsRestockedOnce o db db'
TakenBack OrderStatus.pending o db db' = IsReleased o db db'
TakenBack OrderStatus.pending_payment o db db' = IsReleased o db db'
TakenBack OrderStatus.delivered o db db' = IsReleased o db db'
TakenBack _ o db db' = db'.products ≡ db.products

-- Stock before and after the delivery of an order took a status.
pub FollowsStock : DeliveryStatus → Order → Db → Db → Type 0
FollowsStock DeliveryStatus.cancelled o db db' = TakenBack o.status o db db'
FollowsStock DeliveryStatus.returned o db db' = TakenBack o.status o db db'
FollowsStock _ o db db' = db'.products ≡ db.products

-- An order without products keeps every product as it is.
nothing_TakenBack :
    (st : OrderStatus) (o : Order) (db db' : Db)
    → reservation_items o.items ≡ []
    → db'.products ≡ db.products
    → TakenBack st o db db'
unfolding TakenBack IsReleased IsRestockedOnce
nothing_TakenBack st o db db' empty same = go st
  where
    idle : (i : ℕ) → demand (keys db.products) i (reservation_items o.items) ≡ 0
    idle i = rw empty (demand-nil (keys db.products) i)

    released : IsReleased o db db'
    released = Moves-none Releases Releases-IsAction _ db.products db'.products same idle

    once : IsRestockedOnce o db db'
    once = elim (Bool-cases (already_restocked (some o.id) db)) [
      | inl again ↦ inl (again, same)
      | inr first ↦
          inr (first, Moves-none Restocks Restocks-IsAction _ db.products db'.products same idle)
    ]

    go : (st : OrderStatus) → TakenBack st o db db'
    go OrderStatus.confirmed = once
    go OrderStatus.processing = once
    go OrderStatus.packed = once
    go OrderStatus.shipped = once
    go OrderStatus.out_for_delivery = once
    go OrderStatus.pending = released
    go OrderStatus.pending_payment = released
    go OrderStatus.delivered = released
    go _ = same

disposed-TakenBack :
    (st : OrderStatus) (items : List ReservationItem) (o : Order) (db db' : Db)
    → reservation_items o.items ≡ items
    → Disposes (disposition_of st items) o db db'
    → TakenBack st o db db'
unfolding TakenBack IsReleased IsRestockedOnce disposition_of
disposed-TakenBack st [] o db db' empty h = nothing_TakenBack st o db db' empty h
disposed-TakenBack OrderStatus.confirmed (i ∷ is) o db db' lines h = h
disposed-TakenBack _ (i ∷ is) o db db' lines h = h

pub follows_stock :
    (target : DeliveryStatus) (o : Order) (db db' : Db)
    → Disposes (delivery_disposition target o.status (reservation_items o.items)) o db db'
    → FollowsStock target o db db'
unfolding FollowsStock delivery_disposition
follows_stock DeliveryStatus.cancelled o db db' h =
    disposed-TakenBack o.status (reservation_items o.items) o db db' refl h
follows_stock DeliveryStatus.returned o db db' h =
    disposed-TakenBack o.status (reservation_items o.items) o db db' refl h
follows_stock _ o db db' h = h
