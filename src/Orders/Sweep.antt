-- ===== src/Orders/Sweep.antt =====
-- backend/src/services/reservation-sweep.service.ts: `ReservationSweepService.runOnce`. Times are
-- milliseconds; `ttl` and `batch` are the settings RESERVATION_TTL_MS and RESERVATION_SWEEP_BATCH, and
-- `locked` is the answer of `pg_try_advisory_xact_lock`.
use vedhicfoods.Prelude.{
  ℕ, ◌+◌, ◌-◌, Bool, ◌&&◌, Option, none, some, List, [], ◌∷◌, filter_by, take, length, ltb, leb,
  if◌then◌else◌,
}
use vedhicfoods.Result.{Result, ok, ◌>>=◌}
use vedhicfoods.Inventory.State.{Db, AuditAction}
use vedhicfoods.Inventory.Service.{release_reservation, audited}
use vedhicfoods.Orders.Status.{OrderStatus, same_status}
use vedhicfoods.Orders.Store.{Order, Store, update_order, find_order, set_status, reservation_items}

pub record ReservationSweepResult : Type 0 where
  pub scanned : ℕ
  pub reaped : ℕ

-- `status = 'PENDING_PAYMENT' AND "createdAt" < cutoff`
unfoldable pub is_stale : ℕ → Order → Bool
is_stale cutoff o = same_status o.status OrderStatus.pending_payment && ltb o.created_at cutoff

-- `orderBy: { createdAt: 'asc' }`
unfoldable pub insert_by_age : Order → List Order → List Order
insert_by_age o [] = o ∷ []
insert_by_age o (x ∷ xs) =
    if leb o.created_at x.created_at then o ∷ x ∷ xs else x ∷ insert_by_age o xs

unfoldable pub by_age : List Order → List Order
unfolding insert_by_age
by_age [] = []
by_age (o ∷ os) = insert_by_age o (by_age os)

-- `order.findMany({ … take })`
unfoldable pub find_stale : ℕ → ℕ → Store → List Order
unfolding is_stale by_age
find_stale cutoff batch s = take batch (by_age (filter_by (is_stale cutoff) s.orders))

-- The conditional `UPDATE … WHERE id AND status AND "createdAt"`: whether it affected a row. The notes
-- and the time of the last change, which it also writes, are columns that no model of an order has.
unfoldable pub claim : ℕ → ℕ → Store → Option Store
unfolding is_stale
claim cutoff id s = elim (find_order id s.orders) [
  | none ↦ none
  | some o ↦
      if is_stale cutoff o
      then some (record s { orders = update_order id (set_status OrderStatus.cancelled) s.orders })
      else none
]

-- What follows a claim: the release, unless there is nothing to release, and the audit entry.
unfoldable pub reap : Order → Store → Result Store
unfolding audited
reap order s =
    let finish =
      λ (db : Db). record s { db = audited AuditAction.order_status_updated (some order.id) db } in
    elim (reservation_items order.items) [
      | [] ↦ ok (finish s.db)
      | item ∷ items ↦
          release_reservation (item ∷ items) (some order.id) s.db >>= λ r. ok (finish r.1)
    ]

-- The loop over the scanned orders. `others` is what other transactions commit before the claim of
-- an order.
unfoldable pub reap_all : (ℕ → Store → Store) → ℕ → List Order → ℕ → Store → Result (ℕ × Store)
unfolding claim
reap_all others cutoff [] reaped s = ok (reaped, s)
reap_all others cutoff (order ∷ orders) reaped s =
    elim (claim cutoff order.id (others order.id s)) [
      | none ↦ reap_all others cutoff orders reaped (others order.id s)
      | some claimed ↦ reap order claimed >>= λ s'. reap_all others cutoff orders (reaped + 1) s'
    ]

unfoldable pub run_once :
    (ℕ → Store → Store) → ℕ → ℕ → ℕ → Bool → Store → Result (ReservationSweepResult × Store)
unfolding reap_all find_stale
run_once others now ttl batch locked s =
    let cutoff = now - ttl in
    let stale = find_stale cutoff batch s in
    if locked
    then (reap_all others cutoff stale 0 s >>= λ r.
        ok (record { scanned = length stale; reaped = r.0 }, r.1))
    else ok (record { scanned = 0; reaped = 0 }, s)
