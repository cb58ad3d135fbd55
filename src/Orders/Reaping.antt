-- ===== src/Orders/Reaping.antt =====
-- What the sweep of backend/src/services/reservation-sweep.service.ts does to each order, while other
-- transactions commit between its claims.
use vedhicfoods.Prelude.{
  ℕ, ◌+◌, ◌≤◌, ◌≡◌, inl, inr, Bool, true, false, some, List, [], ◌∷◌, arith, length, take,
  filter_by, zero, suc, ◌-◌, Option-cases, subst,
}
use vedhicfoods.Result.{ok, >>=-eq-ok}
use vedhicfoods.Orders.Status.{OrderStatus}
use vedhicfoods.Orders.Store.{Order, Store, find_order, set_status}
use vedhicfoods.Orders.Sweep.{
  ReservationSweepResult, is_stale, claim, reap, reap_all, find_stale, by_age, run_once,
}
use vedhicfoods.Orders.Claims.{LeavesOrder, reap_all-fresh, has_id, reap_all-cancels}

-- The count goes up by one for some of the scanned orders.
reap_all-count :
    (others : ℕ → Store → Store) (cutoff : ℕ) (orders : List Order) (n m : ℕ) (s s' : Store)
    → reap_all others cutoff orders n s ≡ ok (m, s')
    → (n ≤ m) × (m ≤ n + length orders)
unfolding reap_all
reap_all-count others cutoff [] n m s s' e = ground arith
reap_all-count others cutoff (order ∷ orders) n m s s' e =
    let before = others order.id s in
    elim (Option-cases (claim cutoff order.id before)) [
      | inl refused ↦
          omega
            (arith, reap_all-count others cutoff orders n m before s' (rw (refused, reap_all) at e))
      | inr (claimed, taken) ↦
          let (after, reaped, rest) =
            >>=-eq-ok (reap order claimed) _ (rw (taken, reap_all) at e) in
          omega (arith, reap_all-count others cutoff orders (n + 1) m after s' rest)
    ]

length-take-le {ℓ} : {A : Type ℓ} (n : ℕ) (xs : List A) → length (take n xs) ≤ n
length-take-le zero xs = omega arith
length-take-le (suc n) [] = omega arith
length-take-le (suc n) (x ∷ xs) = omega (arith, length-take-le n xs)

-- A sweep that ends reports no more reaped orders than scanned, and scans at most the batch.
pub run_once-count :
    (others : ℕ → Store → Store) (now ttl batch : ℕ) (locked : Bool) (s s' : Store)
    (r : ReservationSweepResult)
    → run_once others now ttl batch locked s ≡ ok (r, s')
    → (r.reaped ≤ r.scanned) × (r.scanned ≤ batch)
unfolding run_once
run_once-count others now ttl batch false s s' r e = ground arith
run_once-count others now ttl batch true s s' r e =
    let (x, done, end) =
      >>=-eq-ok (reap_all others (now - ttl) (find_stale (now - ttl) batch s) 0 s) _ e in
    let count =
      reap_all-count others (now - ttl) (find_stale (now - ttl) batch s) 0 x.0 s x.1 done in
    unfold find_stale in
    ground (arith, length-take-le batch (by_age (filter_by (is_stale (now - ttl)) s.orders)))

-- In a sweep that ends, an order that no other transaction touches meanwhile keeps its row if it is
-- not an unpaid order from before the cutoff.
pub run_once-fresh :
    (others : ℕ → Store → Store) (now ttl batch id : ℕ) (s s' : Store) (r : ReservationSweepResult)
    (o : Order)
    → LeavesOrder others id
    → find_order id s.orders ≡ some o
    → is_stale (now - ttl) o ≡ false
    → run_once others now ttl batch true s ≡ ok (r, s')
    → find_order id s'.orders ≡ some o
unfolding run_once
run_once-fresh others now ttl batch id s s' r o leaves found fresh e =
    let cutoff = now - ttl in
    let stale = find_stale cutoff batch s in
    let (x, done, end) = >>=-eq-ok (reap_all others cutoff stale 0 s) _ e in
    let last : x.1 ≡ s' = ground arith in
    subst (λ (t : Store). find_order id t.orders ≡ some o) last
      (reap_all-fresh others cutoff id stale 0 x.0 s x.1 o leaves found fresh done)

-- In a sweep that ends, a scanned order that is unpaid and from before the cutoff, and that no other
-- transaction touches meanwhile, ends cancelled, with the number, the customer, the items, the delivery
-- and the creation time that it had.
pub run_once-cancels :
    (others : ℕ → Store → Store) (now ttl batch id : ℕ) (s s' : Store) (r : ReservationSweepResult)
    (o : Order)
    → LeavesOrder others id
    → find_order id s.orders ≡ some o
    → is_stale (now - ttl) o ≡ true
    → has_id id (find_stale (now - ttl) batch s) ≡ true
    → run_once others now ttl batch true s ≡ ok (r, s')
    → find_order id s'.orders ≡ some (set_status OrderStatus.cancelled o)
unfolding run_once
run_once-cancels others now ttl batch id s s' r o leaves found old listed e =
    let cutoff = now - ttl in
    let stale = find_stale cutoff batch s in
    let (x, done, end) = >>=-eq-ok (reap_all others cutoff stale 0 s) _ e in
    let last : x.1 ≡ s' = ground arith in
    subst (λ (t : Store). find_order id t.orders ≡ some (set_status OrderStatus.cancelled o)) last
      (reap_all-cancels others cutoff id stale 0 x.0 s x.1 o leaves listed found old done)
