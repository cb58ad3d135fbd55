-- ===== src/Delivery/Effects.antt =====
-- What a change of its delivery means for an order, its payment and the time of delivery in
-- backend/src/services/delivery.service.ts, told apart from the tables of the code.
use vedhicfoods.Prelude.{
  ℕ, ◌≡◌, inl, inr, refl, ap, some, Option, List, map, [], ◌∷◌, arith, Bool-cases, ◌==◌,
}
use vedhicfoods.Orders.Status.{OrderStatus}
use vedhicfoods.Orders.Store.{DeliveryStatus}
use vedhicfoods.Checkout.Shop.{
  Shop, Sale, Payment, PaymentMethod, PaymentStatus, PaymentRecordStatus,
}
use vedhicfoods.Payments.Gateway.{find_payment}
use vedhicfoods.Delivery.Status.{order_status_of}
use vedhicfoods.Delivery.Store.{DeliveryRow}
use vedhicfoods.Delivery.Service.{set_delivery, synced, collects, collected, sync_order}
use vedhicfoods.Delivery.Changes.{order_after}

-- The status of an order before and after its delivery took a status.
pub FollowsStatus : DeliveryStatus → OrderStatus → OrderStatus → Type 0
FollowsStatus DeliveryStatus.packed before after = after ≡ OrderStatus.packed
FollowsStatus DeliveryStatus.shipped before after = after ≡ OrderStatus.shipped
FollowsStatus DeliveryStatus.out_for_delivery before after = after ≡ OrderStatus.out_for_delivery
FollowsStatus DeliveryStatus.delivered before after = after ≡ OrderStatus.delivered
FollowsStatus DeliveryStatus.cancelled before after = after ≡ OrderStatus.cancelled
FollowsStatus _ before after = after ≡ before

-- The payment status that was read, and those before and after the transaction: an order that is
-- delivered for cash is paid.
pub FollowsPayment :
    DeliveryStatus → PaymentMethod → PaymentStatus → PaymentStatus → PaymentStatus → Type 0
FollowsPayment DeliveryStatus.delivered PaymentMethod.cod PaymentStatus.paid before after =
    after ≡ before
FollowsPayment DeliveryStatus.delivered PaymentMethod.cod _ before after =
    after ≡ PaymentStatus.paid
FollowsPayment _ _ _ before after = after ≡ before

-- The same for the status of the order's payment.
pub FollowsRecord :
    DeliveryStatus
    → PaymentMethod
    → PaymentStatus
    → PaymentRecordStatus
    → PaymentRecordStatus
    → Type 0
FollowsRecord DeliveryStatus.delivered PaymentMethod.cod PaymentStatus.paid before after =
    after ≡ before
FollowsRecord DeliveryStatus.delivered PaymentMethod.cod _ before after =
    after ≡ PaymentRecordStatus.captured
FollowsRecord _ _ _ before after = after ≡ before

-- What the time of delivery is afterwards.
pub FollowsTime : DeliveryStatus → ℕ → Option ℕ → Option ℕ → Type 0
FollowsTime DeliveryStatus.delivered now before after = after ≡ some now
FollowsTime _ now before after = after ≡ before

pub follows_status :
    (target : DeliveryStatus) (sale x : Sale)
    → FollowsStatus target x.base.status (order_after sale target x).base.status
unfolding order_after order_status_of synced FollowsStatus
follows_status DeliveryStatus.packed sale x = refl
follows_status _ sale x = refl

pub follows_payment :
    (target : DeliveryStatus) (method : PaymentMethod) (read : PaymentStatus) (sale x : Sale)
    → sale.payment_method ≡ method
    → sale.payment_status ≡ read
    → FollowsPayment target method read x.payment_status (order_after sale target x).payment_status
unfolding order_after order_status_of synced collects FollowsPayment
follows_payment DeliveryStatus.delivered PaymentMethod.cod PaymentStatus.paid sale x m r =
    rw (m, r) refl
follows_payment DeliveryStatus.delivered PaymentMethod.cod _ sale x m r = rw (m, r) refl
follows_payment DeliveryStatus.delivered _ _ sale x m r = rw m refl
follows_payment _ _ _ sale x m r = refl

collected-found :
    (order : ℕ) (ps : List Payment) (p : Payment)
    → find_payment order ps ≡ some p
    → find_payment order (map (collected order) ps)
      ≡ some (record p { status = PaymentRecordStatus.captured })
unfolding find_payment collected
collected-found order [] p e = cc
collected-found order (x ∷ ps) p e = elim (Bool-cases (x.order == order)) [
  | inl hit ↦
      let same : x ≡ p = ground (arith, rw (find_payment, hit) at e) in
      rw (find_payment, collected, hit, hit)
        (ap (λ (y : Payment). some (record y { status = PaymentRecordStatus.captured })) same)
  | inr miss ↦
      rw (find_payment, collected, miss, miss)
        (collected-found order ps p (rw (find_payment, miss) at e))
]

pub follows_record :
    (target : DeliveryStatus) (method : PaymentMethod) (read : PaymentStatus) (sale : Sale)
    (s : Shop) (p : Payment)
    → sale.payment_method ≡ method
    → sale.payment_status ≡ read
    → find_payment sale.base.id s.payments ≡ some p
    → (q : Payment) × (find_payment sale.base.id (sync_order sale target s).payments ≡ some q)
      × FollowsRecord target method read p.status q.status
unfolding sync_order order_status_of collects FollowsRecord
follows_record DeliveryStatus.delivered PaymentMethod.cod PaymentStatus.paid sale s p m r here =
    (p, rw (m, r) here, refl)
follows_record DeliveryStatus.delivered PaymentMethod.cod _ sale s p m r here = (
  record p { status = PaymentRecordStatus.captured },
  rw (m, r) (collected-found sale.base.id s.payments p here),
  refl,
)
follows_record DeliveryStatus.delivered _ _ sale s p m r here = (p, rw m here, refl)
follows_record _ _ _ sale s p m r here = (p, here, refl)

pub follows_time :
    (target : DeliveryStatus) (now : ℕ) (d : DeliveryRow)
    → FollowsTime target now d.delivered_at (set_delivery target now d).delivered_at
unfolding set_delivery FollowsTime
follows_time DeliveryStatus.delivered now d = refl
follows_time _ now d = refl
