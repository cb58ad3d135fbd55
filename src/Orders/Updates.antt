-- ===== src/Orders/Updates.antt =====
-- `updateOrderStatus` of backend/src/controllers/order.controller.ts: only valid transitions, and
-- what a confirmation by hand does to the stock of an unpaid order.
use mathlib.Core.Bool.{false≢true}
use vedhicfoods.Prelude.{
  ◌∙◌, ℕ, ◌≡◌, ◌≢◌, ◌⊎◌, inl, inr, sym, subst, true, false, Option, none, some, List, [], ◌∷◌,
  arith, Option-cases,
}
use vedhicfoods.Result.{ok}
use vedhicfoods.Inventory.Service.{already_restocked}
use vedhicfoods.Inventory.Moves.{keys, demand, Moves}
use vedhicfoods.Inventory.Conservation.{Restocks}
use vedhicfoods.Orders.Status.{
  OrderStatus, same_status, is_valid_order_transition, inventory_disposition_for_transition,
  InventoryDisposition,
}
use vedhicfoods.Orders.Store.{Order, Store, find_order, update_order, set_status, reservation_items}
use vedhicfoods.Orders.Handlers.{commit_status, answer_status, update_order_status}
use vedhicfoods.Orders.Effects.{Disposes, commit_status-Disposes}

-- After the write the order is found with its new status.
find_order-update_order :
    (id : ℕ) (status : OrderStatus) (os : List Order) (o : Order)
    → find_order id os ≡ some o
    → find_order id (update_order id (set_status status) os) ≡ some (set_status status o)
unfolding find_order update_order
find_order-update_order id status [] o e = cc
find_order-update_order id status (x ∷ os) o e =
    ground (arith, find_order-update_order id status os o)

pub find_order-id : (id : ℕ) (os : List Order) (o : Order) → find_order id os ≡ some o → o.id ≡ id
unfolding find_order
find_order-id id [] o e = cc
find_order-id id (x ∷ os) o e = ground (arith, find_order-id id os o)

answer_status-cases :
    (o : Order) (status : OrderStatus) (s s' : Store)
    → answer_status o (some status) s ≡ (200, s')
    → ((same_status o.status status ≡ true) × (s' ≡ s))
      ⊎ ((is_valid_order_transition o.status status ≡ true) × (commit_status o status s ≡ ok s'))
unfolding answer_status
answer_status-cases o status s s' e = ground arith

answer_status-other :
    (o : Order) (status : Option OrderStatus) (s : Store)
    → ((answer_status o status s).0 ≡ 200) ⊎ ((answer_status o status s).1 ≡ s)
unfolding answer_status
answer_status-other o none s = ground arith
answer_status-other o (some status) s = ground arith

-- `updateOrderStatus` changes nothing unless it answers 200.
pub update_order_status-refused :
    (id : ℕ) (status : Option OrderStatus) (s : Store)
    → (update_order_status id status s).0 ≢ 200
    → (update_order_status id status s).1 ≡ s
unfolding update_order_status
update_order_status-refused id status s h = elim (Option-cases (find_order id s.orders)) [
  | inl missing ↦ rw (missing, update_order_status)
  | inr (o, found) ↦ elim (answer_status-other o status s) [
    | inl done ↦ absurd (h (rw (found, update_order_status) done))
    | inr same ↦ rw (found, update_order_status) same
  ]
]

-- What the answer 200 means for an order: nothing to do, or a valid transition with its stock effect.
abbrev pub Updated : Order → ℕ → OrderStatus → Store → Store → Type 0
Updated o id status s s' =
    ((same_status o.status status ≡ true) × (s' ≡ s))
    ⊎ ((is_valid_order_transition o.status status ≡ true)
        × Disposes (inventory_disposition_for_transition o.status status) o s.db s'.db
        × (find_order id s'.orders ≡ some (set_status status o)))

-- Where `updateOrderStatus` answers 200 for an order, the order had the status already and nothing
-- changed, or the transition is valid, the order has the new status, and stock is released, restocked
-- or left alone as the disposition of the transition says.
pub update_order_status-Updated :
    (id : ℕ) (o : Order) (status : OrderStatus) (s s' : Store)
    → find_order id s.orders ≡ some o
    → update_order_status id (some status) s ≡ (200, s')
    → Updated o id status s s'
unfolding update_order_status
update_order_status-Updated id o status s s' found e =
    elim (answer_status-cases o status s s' (rw (found, update_order_status) at e)) [
      | inl same ↦ inl same
      | inr (valid, committed) ↦
          let (stock, orders) = commit_status-Disposes o status s s' committed in
          inr (
            valid,
            stock,
            rw orders (
                subst
                  (λ k.
                    find_order id (update_order k (set_status status) s.orders)
                    ≡ some (set_status status o))
                  (sym (find_order-id id s.orders o found))
                  (find_order-update_order id status s.orders o found)),
          )
    ]

unpaid_not_confirmed :
    (status : OrderStatus)
    → status ≡ OrderStatus.pending_payment
    → same_status status OrderStatus.confirmed ≡ true
    → ⊥
unpaid_not_confirmed status e h = ground arith

unpaid_confirmed_leaves :
    (status : OrderStatus)
    → status ≡ OrderStatus.pending_payment
    → inventory_disposition_for_transition status OrderStatus.confirmed ≡ InventoryDisposition.leave
unfolding inventory_disposition_for_transition
unpaid_confirmed_leaves status e = ground arith

confirming_unpaid :
    (id : ℕ) (o : Order) (s s' : Store)
    → find_order id s.orders ≡ some o
    → o.status ≡ OrderStatus.pending_payment
    → update_order_status id (some OrderStatus.confirmed) s ≡ (200, s')
    → (s'.db.products ≡ s.db.products)
      × (find_order id s'.orders ≡ some (set_status OrderStatus.confirmed o))
confirming_unpaid id o s s' found unpaid e =
    elim (update_order_status-Updated id o OrderStatus.confirmed s s' found e) [
      | inl (same, _) ↦ absurd (unpaid_not_confirmed o.status unpaid same)
      | inr (valid, stock, now) ↦ (
        subst (λ d. Disposes d o s.db s'.db) (unpaid_confirmed_leaves o.status unpaid) stock,
        now,
      )
    ]

cancelling_confirmed :
    (id : ℕ) (o : Order) (s s' : Store)
    → find_order id s.orders ≡ some (set_status OrderStatus.confirmed o)
    → already_restocked (some o.id) s.db ≡ false
    → update_order_status id (some OrderStatus.cancelled) s ≡ (200, s')
    → Moves Restocks
        (λ i. demand (keys s.db.products) i (reservation_items o.items))
        s.db.products
        s'.db.products
unfolding inventory_disposition_for_transition
cancelling_confirmed id o s s' found fresh e =
    elim (update_order_status-Updated id (set_status OrderStatus.confirmed o) OrderStatus.cancelled
      s s' found e) [
        | inl (same, _) ↦ absurd (cc same)
        | inr (valid, stock, now) ↦ elim stock [
          | inl (again, _) ↦ absurd (false≢true (sym fresh ∙ again))
          | inr (first, moves) ↦ moves
        ]
      ]

-- An unpaid order, never restocked, that `updateOrderStatus` moves to CONFIRMED and then to CANCELLED
-- strands its reservation: the quantities of its lines are credited to the shelf and taken off the
-- sales, though they were never sold, and every product's reserve stays as it was.
pub update_order_status-strands :
    (id : ℕ) (o : Order) (s confirmed cancelled : Store)
    → find_order id s.orders ≡ some o
    → o.status ≡ OrderStatus.pending_payment
    → update_order_status id (some OrderStatus.confirmed) s ≡ (200, confirmed)
    → already_restocked (some o.id) confirmed.db ≡ false
    → update_order_status id (some OrderStatus.cancelled) confirmed ≡ (200, cancelled)
    → Moves Restocks
        (λ i. demand (keys s.db.products) i (reservation_items o.items))
        s.db.products
        cancelled.db.products
update_order_status-strands id o s confirmed cancelled found unpaid e fresh e' =
    let (same, found') = confirming_unpaid id o s confirmed found unpaid e in
    let stock = cancelling_confirmed id o confirmed cancelled found' fresh e' in rw (← same) stock
