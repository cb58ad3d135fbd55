-- ===== src/Orders/Cancellation.antt =====
-- What `cancelOrder` and `updateOrderStatus` of backend/src/controllers/order.controller.ts do to the
-- order, to stock, and to a caller who has no right to it.
use vedhicfoods.Prelude.{
  ℕ, ◌≡◌, ◌≢◌, ◌⊎◌, inl, inr, refl, true, Option, none, some, arith, Option-cases, ap,
}
use vedhicfoods.Result.{ok}
use vedhicfoods.Orders.Status.{OrderStatus}
use vedhicfoods.Orders.Store.{Order, Store, find_order_by_key}
use vedhicfoods.Orders.Handlers.{
  Caller, Response, is_privileged_actor, order_access_token_matches_order, commit_cancellation,
  answer_cancellation, cancel_order, status_code,
}

-- What the answer 200 of `cancelOrder` means for the caller and the order.
pub record MayCancel (c : Caller) (o : Order) : Type 0 where
  pub token_matches : order_access_token_matches_order c.order_access o.id ≡ true
  pub entitled : (is_privileged_actor c ≡ true) ⊎ (o.user ≡ c.user) ⊎ (o.email ≡ c.email)
  pub not_cancelled : o.status ≢ OrderStatus.cancelled
  pub not_delivered : o.status ≢ OrderStatus.delivered

answer_cancellation-200 :
    (c : Caller) (o : Order) (s s' : Store)
    → answer_cancellation c o s ≡ (200, s')
    → MayCancel c o × (commit_cancellation o s ≡ ok s')
unfolding answer_cancellation status_code
answer_cancellation-200 c o s s' e = ground arith

answer_cancellation-other :
    (c : Caller) (o : Order) (s : Store)
    → ((answer_cancellation c o s).0 ≡ 200) ⊎ ((answer_cancellation c o s).1 ≡ s)
unfolding answer_cancellation
answer_cancellation-other c o s = ground arith

-- `cancelOrder` changes nothing unless it answers 200.
pub cancel_order-refused :
    (caller : Option Caller) (id : ℕ) (s : Store)
    → (cancel_order caller id s).0 ≢ 200
    → (cancel_order caller id s).1 ≡ s
unfolding cancel_order
cancel_order-refused none id s h = refl
cancel_order-refused (some c) id s h = elim (Option-cases (find_order_by_key id s.orders)) [
  | inl missing ↦ rw (missing, cancel_order)
  | inr (o, found) ↦ elim (answer_cancellation-other c o s) [
    | inl done ↦ absurd (h (rw (found, cancel_order) done))
    | inr same ↦ rw (found, cancel_order) same
  ]
]

-- `cancelOrder` answers 200 only to a known caller whose order token, if any, was minted for the
-- order, who is privileged or owns the order by account or e-mail, and whose order is neither
-- cancelled nor delivered.
pub cancel_order-200 :
    (caller : Option Caller) (id : ℕ) (s s' : Store)
    → cancel_order caller id s ≡ (200, s')
    → (c : Caller) × (o : Order) × (caller ≡ some c)
      × (find_order_by_key id s.orders ≡ some o)
      × MayCancel c o
      × (commit_cancellation o s ≡ ok s')
unfolding cancel_order
cancel_order-200 none id s s' e = absurd (omega (arith, ap (λ (r : Response). r.0) e))
cancel_order-200 (some c) id s s' e = elim (Option-cases (find_order_by_key id s.orders)) [
  | inl missing ↦
      absurd (omega (arith, ap (λ (r : Response). r.0) (rw (missing, cancel_order) at e)))
  | inr (o, found) ↦
      let (may, done) = answer_cancellation-200 c o s s' (rw (found, cancel_order) at e) in
      (c, o, refl, found, may, done)
]
