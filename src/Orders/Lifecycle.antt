-- ===== src/Orders/Lifecycle.antt =====
-- The lifecycle that backend/src/utils/order-status.ts allows: histories of valid transitions.
use vedhicfoods.Prelude.{ℕ, ◌+◌, ◌≤◌, ◌≡◌, ◌⊎◌, inl, inr, Bool, true, false, ◌||◌, arith, [], ◌∷◌}
use vedhicfoods.Orders.Status.{
  OrderStatus, pending, packed, shipped, out_for_delivery, delivered, cancelled, failed,
  same_status, includes, deducted_from, is_valid_order_transition,
  inventory_disposition_for_transition, leave,
}

-- A history of valid transitions of an order that began in `s`.
pub data History (s : OrderStatus) : OrderStatus → Type 0 where
  start : History s s
  next : {t u : OrderStatus} → History s t → is_valid_order_transition t u ≡ true → History s u

-- The statuses that the history has passed through, the last one included.
unfoldable pub visited : {s t : OrderStatus} → History s t → OrderStatus → Bool
visited {s} start x = same_status s x
visited (next {u = u} h e) x = same_status u x || visited h x

-- Statuses that an order reaches only once it has been packed, and only once it has been shipped.
abbrev pub is_past_packing : OrderStatus → Bool
is_past_packing = includes (packed ∷ shipped ∷ out_for_delivery ∷ delivered ∷ [])

abbrev pub is_past_shipping : OrderStatus → Bool
is_past_shipping = includes (shipped ∷ out_for_delivery ∷ delivered ∷ [])

into_packing :
    (t u : OrderStatus)
    → is_valid_order_transition t u ≡ true
    → is_past_packing u ≡ true
    → (same_status u packed ≡ true) ⊎ (is_past_packing t ≡ true)
unfolding is_valid_order_transition
into_packing pending u e h = ground arith
into_packing _ u e h = ground arith

into_shipping :
    (t u : OrderStatus)
    → is_valid_order_transition t u ≡ true
    → is_past_shipping u ≡ true
    → (same_status u shipped ≡ true) ⊎ (is_past_shipping t ≡ true)
unfolding is_valid_order_transition
into_shipping pending u e h = ground arith
into_shipping _ u e h = ground arith

-- A group of statuses that valid transitions enter only at `x` is entered only through `x`.
visited_entry :
    (group : OrderStatus → Bool) (x : OrderStatus)
    → ((t u : OrderStatus)
        → is_valid_order_transition t u ≡ true
        → group u ≡ true
        → (same_status u x ≡ true) ⊎ (group t ≡ true))
    → {s t : OrderStatus} (h : History s t) → group s ≡ false
    → group t ≡ true
    → visited h x ≡ true
unfolding visited
visited_entry group x into start outside inside = cc
visited_entry group x into (next {t = t} {u = u} h e) outside inside = elim (into t u e inside) [
  | inl entered ↦ ground arith
  | inr already ↦ ground (arith, visited_entry group x into h outside already)
]

-- An order that began before packing, and that is delivered or out for delivery now, has been packed
-- and has been shipped.
pub delivered-visited :
    {s t : OrderStatus} (h : History s t)
    → is_past_packing s ≡ false
    → includes (out_for_delivery ∷ delivered ∷ []) t ≡ true
    → (visited h packed ≡ true) × (visited h shipped ≡ true)
delivered-visited {s} {t} h outside done = (
  visited_entry is_past_packing packed into_packing h outside (ground arith),
  visited_entry is_past_shipping shipped into_shipping h (ground arith) (ground arith),
)

-- Statuses after the stock was sold.
abbrev pub is_settled : OrderStatus → Bool
is_settled = includes (delivered ∷ cancelled ∷ failed ∷ deducted_from)

-- An order in CONFIRMED or later never comes back to a status in which it holds a reservation or
-- awaits payment, so its stock cannot be deducted twice.
pub settled-History : {s t : OrderStatus} → History s t → is_settled s ≡ true → is_settled t ≡ true
settled-History start h = h
settled-History (next {t = t} {u = u} before e) h = settled_step t u e (settled-History before h)
  where
    settled_step :
        (t u : OrderStatus)
        → is_valid_order_transition t u ≡ true
        → is_settled t ≡ true
        → is_settled u ≡ true
    settled_step pending u e h = unfold is_valid_order_transition in ground arith
    settled_step _ u e h = unfold is_valid_order_transition in ground arith

-- How often the transitions of a history put stock back.
unfoldable pub returns : {s t : OrderStatus} → History s t → ℕ
returns start = 0
returns (next {t = t} {u = u} h e) =
    returns h + elim (inventory_disposition_for_transition t u) [ leave ↦ 0 | _ ↦ 1 ]

abbrev pub is_terminal : OrderStatus → Bool
is_terminal = includes (delivered ∷ cancelled ∷ failed ∷ [])

-- Stock comes back only on the way into a final status, from which nothing leads on.
disposition_step :
    (t u : OrderStatus)
    → is_valid_order_transition t u ≡ true
    → (is_terminal t ≡ false)
      × ((inventory_disposition_for_transition t u ≡ leave) ⊎ (is_terminal u ≡ true))
unfolding is_valid_order_transition inventory_disposition_for_transition
disposition_step pending u e = ground arith
disposition_step _ u e = ground arith

returns_bound :
    {s t : OrderStatus} (h : History s t)
    → (returns h ≤ 1) × ((returns h ≡ 0) ⊎ (is_terminal t ≡ true))
unfolding returns
returns_bound start = ground arith
returns_bound (next {t = t} {u = u} h e) = ground (arith, returns_bound h, disposition_step t u e)

-- Along any history of valid transitions stock is put back at most once.
pub returns-le-one : {s t : OrderStatus} (h : History s t) → returns h ≤ 1
returns-le-one h = (returns_bound h).0
