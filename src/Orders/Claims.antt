-- ===== src/Orders/Claims.antt =====
-- How the loop of the sweep in backend/src/services/reservation-sweep.service.ts claims orders.
use vedhicfoods.Prelude.{
  ℕ, ◌+◌, ◌≡◌, ◌≢◌, inl, inr, refl, sym, ◌∙◌, ap, Bool, true, false, some, List, [], ◌∷◌, arith,
  any_by, ◌==◌, ==_iff, Bool-cases, Option-cases, subst,
}
use vedhicfoods.Result.{ok, ◌>>=◌, >>=-eq-ok}
use vedhicfoods.Inventory.State.{ReservationItem, AuditAction}
use vedhicfoods.Inventory.Service.{release_reservation, audited}
use vedhicfoods.Orders.Status.{OrderStatus}
use vedhicfoods.Orders.Store.{Order, Store, update_order, find_order, set_status, reservation_items}
use vedhicfoods.Orders.Sweep.{is_stale, claim, reap, reap_all}

-- A write to one order does not show at another.
find_order-update_ne :
    (i j : ℕ) (status : OrderStatus) (os : List Order)
    → i ≢ j
    → find_order j (update_order i (set_status status) os) ≡ find_order j os
unfolding find_order update_order
find_order-update_ne i j status [] h = refl
find_order-update_ne i j status (x ∷ os) h = ground (arith, find_order-update_ne i j status os h)

find_order-update_self :
    (i : ℕ) (status : OrderStatus) (os : List Order) (o : Order)
    → find_order i os ≡ some o
    → find_order i (update_order i (set_status status) os) ≡ some (set_status status o)
unfolding find_order update_order
find_order-update_self i status [] o e = cc
find_order-update_self i status (x ∷ os) o e = ground (arith, find_order-update_self i status os o)

-- A release touches no order.
reap-orders : (order : Order) (s s' : Store) → reap order s ≡ ok s' → s'.orders ≡ s.orders
unfolding reap
reap-orders order s s' e = go (reservation_items order.items) e
  where
    go :
        (items : List ReservationItem)
        → (elim items [
          | [] ↦
              ok (record s { db = audited AuditAction.order_status_updated (some order.id) s.db })
          | item ∷ rest ↦ release_reservation (item ∷ rest) (some order.id) s.db >>= λ r.
              ok (record s { db = audited AuditAction.order_status_updated (some order.id) r.1 })
        ])
          ≡ ok s'
        → s'.orders ≡ s.orders
    go [] h = ground arith
    go (item ∷ rest) h =
        let (r, done, end) =
          >>=-eq-ok (release_reservation (item ∷ rest) (some order.id) s.db) _ h in
        ground arith

-- Other transactions leave this order alone.
abbrev pub LeavesOrder : (ℕ → Store → Store) → ℕ → Type 0
LeavesOrder others id =
    (k : ℕ) (s : Store) → find_order id (others k s).orders ≡ find_order id s.orders

-- A claim succeeds on a stale order, and cancels it.
claim_cases :
    (cutoff k : ℕ) (s claimed : Store)
    → claim cutoff k s ≡ some claimed
    → (o : Order) × (find_order k s.orders ≡ some o)
      × (is_stale cutoff o ≡ true)
      × (claimed.orders ≡ update_order k (set_status OrderStatus.cancelled) s.orders)
unfolding claim
claim_cases cutoff k s claimed e = elim (Option-cases (find_order k s.orders)) [
  | inl missing ↦ absurd (cc (rw (missing, claim) at e))
  | inr (o, found) ↦ (o, found, ground (arith, found), ground (arith, found))
]

-- A row that is not stale outlives the claim of any order.
claim_fresh :
    (cutoff k id : ℕ) (s claimed : Store) (o : Order)
    → claim cutoff k s ≡ some claimed
    → find_order id s.orders ≡ some o
    → is_stale cutoff o ≡ false
    → find_order id claimed.orders ≡ some o
claim_fresh cutoff k id s claimed o e found fresh =
    let (stale, found', old, written) = claim_cases cutoff k s claimed e in
    elim (Bool-cases (k == id)) [
      | inl same ↦
          let here : k ≡ id = (==_iff k id).0 same in
          absurd (cc (subst (λ j. find_order j s.orders ≡ some stale) here found'))
      | inr differ ↦
          rw written
            (find_order-update_ne k id OrderStatus.cancelled s.orders (ground arith) ∙ found)
    ]

-- An order whose row is not stale when the sweep begins, and that no other transaction touches
-- meanwhile, keeps its row through the whole sweep.
pub reap_all-fresh :
    (others : ℕ → Store → Store) (cutoff id : ℕ) (orders : List Order) (n m : ℕ) (s s' : Store)
    (o : Order)
    → LeavesOrder others id
    → find_order id s.orders ≡ some o
    → is_stale cutoff o ≡ false
    → reap_all others cutoff orders n s ≡ ok (m, s')
    → find_order id s'.orders ≡ some o
unfolding reap_all
reap_all-fresh others cutoff id [] n m s s' o leaves found fresh e = ground arith
reap_all-fresh others cutoff id (order ∷ orders) n m s s' o leaves found fresh e =
    let before = others order.id s in
    let found' : find_order id before.orders ≡ some o = leaves order.id s ∙ found in
    elim (Option-cases (claim cutoff order.id before)) [
      | inl refused ↦
          reap_all-fresh others cutoff id orders n m before s' o leaves found' fresh
            (rw (refused, reap_all) at e)
      | inr (claimed, taken) ↦
          let (after, reaped, rest) =
            >>=-eq-ok (reap order claimed) _ (rw (taken, reap_all) at e) in
          reap_all-fresh others cutoff id orders (n + 1) m after s' o leaves
            (rw (reap-orders order claimed after reaped)
              (claim_fresh cutoff order.id id before claimed o taken found' fresh))
            fresh rest
    ]

abbrev pub has_id : ℕ → List Order → Bool
has_id id = any_by (λ o. o.id == id)

-- The claim of a stale order.
claim_stale :
    (cutoff id : ℕ) (s : Store) (o : Order)
    → find_order id s.orders ≡ some o
    → is_stale cutoff o ≡ true
    → claim cutoff id s
      ≡ some (record s { orders = update_order id (set_status OrderStatus.cancelled) s.orders })
unfolding claim
claim_stale cutoff id s o found old = rw (found, claim) (rw old)

-- A scanned order that is stale, and that no other transaction touches meanwhile, ends cancelled.
pub reap_all-cancels :
    (others : ℕ → Store → Store) (cutoff id : ℕ) (orders : List Order) (n m : ℕ) (s s' : Store)
    (o : Order)
    → LeavesOrder others id
    → has_id id orders ≡ true
    → find_order id s.orders ≡ some o
    → is_stale cutoff o ≡ true
    → reap_all others cutoff orders n s ≡ ok (m, s')
    → find_order id s'.orders ≡ some (set_status OrderStatus.cancelled o)
unfolding reap_all
reap_all-cancels others cutoff id [] n m s s' o leaves listed found old e = cc
reap_all-cancels others cutoff id (order ∷ orders) n m s s' o leaves listed found old e =
    let before = others order.id s in
    let found' : find_order id before.orders ≡ some o = leaves order.id s ∙ found in
    elim (Bool-cases (order.id == id)) [
      | inl same ↦
          let here : id ≡ order.id = sym ((==_iff order.id id).0 same) in
          let taken =
            claim_stale cutoff order.id before o
              (subst (λ j. find_order j before.orders ≡ some o) here found') old in
          let (after, reaped, rest) = >>=-eq-ok (reap order _) _ (rw (taken, reap_all) at e) in
          let now : find_order id after.orders ≡ some (set_status OrderStatus.cancelled o) =
            ap (find_order id) (reap-orders order _ after reaped)
            ∙ subst
                (λ j.
                  find_order id (update_order j (set_status OrderStatus.cancelled) before.orders)
                  ≡ some (set_status OrderStatus.cancelled o))
                here (find_order-update_self id OrderStatus.cancelled before.orders o found') in
          reap_all-fresh others cutoff id orders (n + 1) m after s'
            (set_status OrderStatus.cancelled o) leaves now (unfold is_stale in refl) rest
      | inr differ ↦
          let listed' : has_id id orders ≡ true = ground arith in
          elim (Option-cases (claim cutoff order.id before)) [
            | inl refused ↦
                reap_all-cancels others cutoff id orders n m before s' o leaves listed' found' old
                  (rw (refused, reap_all) at e)
            | inr (claimed, taken) ↦
                let (after, reaped, rest) =
                  >>=-eq-ok (reap order claimed) _ (rw (taken, reap_all) at e) in
                let (_, _, _, written) = claim_cases cutoff order.id before claimed taken in
                reap_all-cancels others cutoff id orders (n + 1) m after s' o leaves listed'
                  (rw (reap-orders order claimed after reaped, written)
                    (find_order-update_ne order.id id OrderStatus.cancelled before.orders
                        (ground arith)
                      ∙ found'))
                  old rest
          ]
    ]
