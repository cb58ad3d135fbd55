-- ===== src/Delivery/Changes.antt =====
-- What `updateDeliveryStatus` of backend/src/services/delivery.service.ts does to the delivery, its
-- order and its stock.
use vedhicfoods.Prelude.{
  ℕ, ◌≡◌, inl, inr, refl, ap, true, false, none, some, List, [], ◌∷◌, arith, Bool-cases,
  Option-cases, ◌==◌,
}
use vedhicfoods.Result.{Result, ok, err, >>=-eq-ok}
use vedhicfoods.Inventory.Service.{audited}
use vedhicfoods.Orders.Status.{OrderStatus, same_status}
use vedhicfoods.Orders.Store.{DeliveryStatus, reservation_items}
use vedhicfoods.Orders.Handlers.{apply_disposition}
use vedhicfoods.Orders.Effects.{Disposes, apply_disposition-Disposes, Disposes-products}
use vedhicfoods.Checkout.Shop.{Shop, Sale, find_sale}
use vedhicfoods.Payments.Gateway.{noted}
use vedhicfoods.Payments.Capturing.{find_sale-update}
use vedhicfoods.Delivery.Status.{same_delivery, is_valid_delivery_transition, order_status_of}
use vedhicfoods.Delivery.Store.{
  DeliveryRow, Depot, Resolved, committed, find_delivery, update_delivery, resolve_delivery,
  with_history,
}
use vedhicfoods.Delivery.Service.{
  set_delivery, synced, collects, sync_order, delivery_disposition, is_unchanged, commit_change,
  change_status, with_delivery, update_delivery_status,
}

-- A write by id that keeps ids, read back.
pub find_delivery-update :
    (id : ℕ) (change : DeliveryRow → DeliveryRow) (ds : List DeliveryRow) (d : DeliveryRow)
    → ((x : DeliveryRow) → (change x).id ≡ x.id)
    → find_delivery id ds ≡ some d
    → find_delivery id (update_delivery id change ds) ≡ some (change d)
unfolding find_delivery update_delivery
find_delivery-update id change [] d keeps e = cc
find_delivery-update id change (x ∷ ds) d keeps e = elim (Bool-cases (x.id == id)) [
  | inl hit ↦
      let same : x ≡ d = ground (arith, rw (find_delivery, hit) at e) in
      let still : ((change x).id == id) ≡ true = rw (keeps x) hit in
      rw (update_delivery, hit, find_delivery, still) (ap (λ y. some (change y)) same)
  | inr miss ↦
      rw (update_delivery, miss, find_delivery, miss)
        (find_delivery-update id change ds d keeps (rw (find_delivery, miss) at e))
]

-- The order after a change of its delivery.
unfoldable pub order_after : Sale → DeliveryStatus → Sale → Sale
order_after sale target x = elim (order_status_of target) [
  | none ↦ x
  | some status ↦ synced (collects sale target) status x
]

sync_order-found :
    (sale : Sale) (target : DeliveryStatus) (s : Shop) (x : Sale)
    → find_sale sale.base.id s.sales ≡ some x
    → find_sale sale.base.id (sync_order sale target s).sales ≡ some (order_after sale target x)
unfolding sync_order order_after
sync_order-found sale target s x h = elim (Option-cases (order_status_of target)) [
  | inl e ↦ rw (sync_order, order_after, e) h
  | inr (status, e) ↦
      rw (sync_order, order_after, e)
        (find_sale-update sale.base.id (synced (collects sale target) status) s.sales x
          (unfold synced in λ y. refl) h)
]

sync_order-db :
    (sale : Sale) (target : DeliveryStatus) (s : Shop) → (sync_order sale target s).db ≡ s.db
unfolding sync_order
sync_order-db sale target s = elim (Option-cases (order_status_of target)) [
  | inl e ↦ rw (sync_order, e) refl
  | inr (status, e) ↦ rw (sync_order, e) refl
]

is_unchanged-found :
    (d : DeliveryRow) (ds : List DeliveryRow)
    → is_unchanged d ds ≡ true
    → (x : DeliveryRow) × (find_delivery d.id ds ≡ some x)
      × (same_delivery x.status d.status ≡ true)
unfolding is_unchanged
is_unchanged-found d ds h = elim (Option-cases (find_delivery d.id ds)) [
  | inl e ↦ absurd (cc (rw (is_unchanged, e) at h))
  | inr (x, e) ↦ (x, e, rw (is_unchanged, e) at h)
]

-- What a committed change means for the delivery, its order and the products.
pub record Changed (d : DeliveryRow) (sale : Sale) (target : DeliveryStatus) (now : ℕ)
    (s s' : Depot) : Type 0 where
  pub current : DeliveryRow
  pub was_found : find_delivery d.id s.deliveries ≡ some current
  pub was_unchanged : same_delivery current.status d.status ≡ true
  pub now_found : find_delivery d.id s'.deliveries ≡ some (set_delivery target now current)
  pub synced_order :
      (x : Sale)
      → find_sale sale.base.id s.shop.sales ≡ some x
      → find_sale sale.base.id s'.shop.sales ≡ some (order_after sale target x)
  pub payments : s'.shop.payments ≡ (sync_order sale target s.shop).payments
  pub stock :
      Disposes
        (delivery_disposition target sale.base.status (reservation_items sale.base.items))
        sale.base
        s.shop.db
        s'.shop.db

commit_change-Changed :
    (d : DeliveryRow) (sale : Sale) (target : DeliveryStatus) (now : ℕ) (s s' : Depot)
    → is_unchanged d s.deliveries ≡ true
    → commit_change d sale target now s ≡ ok s'
    → Changed d sale target now s s'
unfolding commit_change noted with_history audited
commit_change-Changed d sale target now s s' same e =
    let items = reservation_items sale.base.items in
    let shop = sync_order sale target s.shop in
    let dis = delivery_disposition target sale.base.status items in
    let (r, done, end) =
      >>=-eq-ok (apply_disposition dis items sale.base.id shop.db) _
        (rw (commit_change, same) at e) in
    let (x, found, unchanged) = is_unchanged-found d s.deliveries same in
    let rows : s'.deliveries ≡ update_delivery d.id (set_delivery target now) s.deliveries =
      ground arith in
    let sales : s'.shop.sales ≡ shop.sales = ground arith in
    let products : s'.shop.db.products ≡ r.1.products = ground arith in
    record {
      current = x;
      was_found = found;
      was_unchanged = unchanged;
      now_found = rw rows (
          find_delivery-update d.id (set_delivery target now) s.deliveries x
            (unfold set_delivery in λ y. refl) found);
      synced_order = λ y h. rw sales (sync_order-found sale target s.shop y h);
      payments = ground arith;
      stock =
          Disposes-products dis sale.base s.shop.db r.1 s'.shop.db
            (apply_disposition-Disposes dis sale.base s.shop.db r.1 r.0
              (rw (sync_order-db sale target s.shop) at done))
            products;
    }

committed-ok : (s s' : Depot) (r : Result Depot) → committed s r ≡ (ok tt, s') → r ≡ ok s'
committed-ok s s' (err e) h = cc
committed-ok s s' (ok x) h = ground arith

-- How a change of status may end well.
change_status-cases :
    (d : DeliveryRow) (sale : Sale) (target : DeliveryStatus) (now : ℕ) (others : Depot → Depot)
    (s s' : Depot)
    → change_status d sale target now others s ≡ (ok tt, s')
    → (same_status sale.base.status OrderStatus.cancelled ≡ false)
      × (is_valid_delivery_transition d.status target ≡ true)
      × (commit_change d sale target now (others s) ≡ ok s')
unfolding change_status
change_status-cases d sale target now others s s' e =
    ground (arith, committed-ok (others s) s' (commit_change d sale target now (others s)))

commit_change-unchanged :
    (d : DeliveryRow) (sale : Sale) (target : DeliveryStatus) (now : ℕ) (s s' : Depot)
    → commit_change d sale target now s ≡ ok s'
    → is_unchanged d s.deliveries ≡ true
unfolding commit_change
commit_change-unchanged d sale target now s s' e = elim (Bool-cases (is_unchanged d s.deliveries)) [
  | inl yes_so ↦ yes_so
  | inr moved ↦ absurd (cc (rw (commit_change, moved) at e))
]

-- A change that succeeds passed the guards, and committed on the tables of its transaction.
pub update_delivery_status-Changed :
    (key now : ℕ) (target : DeliveryStatus) (others : Depot → Depot) (s s' : Depot) (r : Resolved)
    → resolve_delivery key s ≡ ok r
    → update_delivery_status key target now others s ≡ (ok tt, s')
    → (same_status r.sale.base.status OrderStatus.cancelled ≡ false)
      × (is_valid_delivery_transition r.delivery.status target ≡ true)
      × Changed r.delivery r.sale target now (others r.depot) s'
unfolding update_delivery_status with_delivery
update_delivery_status-Changed key now target others s s' r found e =
    let (open_order, valid, done) =
      change_status-cases r.delivery r.sale target now others r.depot s'
        (rw (update_delivery_status, with_delivery, found) at e) in
    (
      open_order,
      valid,
      commit_change-Changed r.delivery r.sale target now (others r.depot) s'
          (commit_change-unchanged r.delivery r.sale target now (others r.depot) s' done) done,
    )
