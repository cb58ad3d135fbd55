-- ===== src/Orders/Effects.antt =====
-- What a cancellation and a change of status do to stock.
use vedhicfoods.Prelude.{◌≡◌, ◌⊎◌, inl, inr, ◌∙◌, true, false, some, List, arith, Bool-cases}
use vedhicfoods.Result.{ok, >>=-eq-ok}
use vedhicfoods.Inventory.State.{Db}
use vedhicfoods.Inventory.Service.{MovedItem, already_restocked, audited}
use vedhicfoods.Inventory.Moves.{keys, demand, Moves}
use vedhicfoods.Inventory.Conservation.{
  Releases, Restocks, release_reservation-Releases, restock_order-Restocks, restock_order-again,
}
use vedhicfoods.Orders.Status.{
  OrderStatus, is_valid_order_transition, inventory_disposition_for_transition,
  InventoryDisposition,
}
use vedhicfoods.Orders.Store.{Order, Store, update_order, set_status, reservation_items}
use vedhicfoods.Orders.Handlers.{
  cancellation_disposition, apply_disposition, cancel_delivery, commit_cancellation, commit_status,
}

-- Stock before and after an effect on the lines of an order; a restock counts once for an order.
abbrev pub Disposes : InventoryDisposition → Order → Db → Db → Type 0
Disposes InventoryDisposition.release o db db' =
    Moves Releases (λ i. demand (keys db.products) i (reservation_items o.items)) db.products
      db'.products
Disposes InventoryDisposition.restock o db db' =
    ((already_restocked (some o.id) db ≡ true) × (db'.products ≡ db.products))
    ⊎ ((already_restocked (some o.id) db ≡ false)
        × Moves Restocks (λ i. demand (keys db.products) i (reservation_items o.items)) db.products
            db'.products)
Disposes InventoryDisposition.leave o db db' = db'.products ≡ db.products

pub apply_disposition-Disposes :
    (d : InventoryDisposition) (o : Order) (db db' : Db) (moved : List MovedItem)
    → apply_disposition d (reservation_items o.items) o.id db ≡ ok (moved, db')
    → Disposes d o db db'
unfolding apply_disposition
apply_disposition-Disposes InventoryDisposition.release o db db' moved e =
    release_reservation-Releases (reservation_items o.items) (some o.id) db db' moved e
apply_disposition-Disposes InventoryDisposition.restock o db db' moved e =
    elim (Bool-cases (already_restocked (some o.id) db)) [
      | inl again ↦
          inl (
            again,
            restock_order-again (reservation_items o.items) (some o.id) db db' moved again e,
          )
      | inr first ↦ inr (
        first,
        restock_order-Restocks (reservation_items o.items) (some o.id) db db' moved first e,
      )
    ]
apply_disposition-Disposes InventoryDisposition.leave o db db' moved e = ground arith

pub Disposes-products :
    (d : InventoryDisposition) (o : Order) (db db' db'' : Db)
    → Disposes d o db db'
    → db''.products ≡ db'.products
    → Disposes d o db db''
Disposes-products InventoryDisposition.release o db db' db'' h e = rw e h
Disposes-products InventoryDisposition.restock o db db' db'' (inl (again, h)) e = inl (again, e ∙ h)
Disposes-products InventoryDisposition.restock o db db' db'' (inr (first, h)) e =
    inr (first, rw e h)
Disposes-products InventoryDisposition.leave o db db' db'' h e = e ∙ h

pub cancel_delivery-db : (o : Order) (s : Store) → (cancel_delivery o s).db ≡ s.db
unfolding cancel_delivery
cancel_delivery-db o s = ground arith

-- A committed cancellation has the stock effect of the status that the order had.
pub commit_cancellation-Disposes :
    (o : Order) (s s' : Store)
    → commit_cancellation o s ≡ ok s'
    → Disposes (cancellation_disposition o.status) o s.db s'.db
unfolding commit_cancellation audited
commit_cancellation-Disposes o s s' e =
    let cleared =
      cancel_delivery o
        (record s { orders = update_order o.id (set_status OrderStatus.cancelled) s.orders }) in
    let d = cancellation_disposition o.status in
    let (r, done, end) =
      >>=-eq-ok (apply_disposition d (reservation_items o.items) o.id cleared.db) _ e in
    let same : cleared.db ≡ s.db = cancel_delivery-db o _ in
    Disposes-products d o s.db r.1 s'.db
      (apply_disposition-Disposes d o s.db r.1 r.0 (rw same at done)) (ground arith)

-- A committed change of status has the stock effect of the transition, and sets the status.
pub commit_status-Disposes :
    (o : Order) (status : OrderStatus) (s s' : Store)
    → commit_status o status s ≡ ok s'
    → Disposes (inventory_disposition_for_transition o.status status) o s.db s'.db
      × (s'.orders ≡ update_order o.id (set_status status) s.orders)
unfolding commit_status audited
commit_status-Disposes o status s s' e =
    let d = inventory_disposition_for_transition o.status status in
    let (r, done, end) =
      >>=-eq-ok (apply_disposition d (reservation_items o.items) o.id s.db) _ e in
    (
      Disposes-products d o s.db r.1 s'.db (apply_disposition-Disposes d o s.db r.1 r.0 done)
          (ground arith),
      ground arith,
    )

-- In every status from which a transition to CANCELLED is valid, `cancelOrder` treats stock as that
-- transition does, but for PENDING: there it releases a reservation, and the transition does nothing.
pub cancellation-disposition :
    (from : OrderStatus)
    → is_valid_order_transition from OrderStatus.cancelled ≡ true
    → (cancellation_disposition from
        ≡ inventory_disposition_for_transition from OrderStatus.cancelled)
      ⊎ ((from ≡ OrderStatus.pending)
          × (cancellation_disposition from ≡ InventoryDisposition.release)
          × (inventory_disposition_for_transition from OrderStatus.cancelled
              ≡ InventoryDisposition.leave))
unfolding is_valid_order_transition inventory_disposition_for_transition cancellation_disposition
cancellation-disposition OrderStatus.pending e = ground arith
cancellation-disposition _ e = ground arith
