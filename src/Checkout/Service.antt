-- ===== src/Checkout/Service.antt =====
-- backend/src/services/checkout.service.ts: `processCheckout`.
--
-- The answer is the order, and whether it is a replay. The transaction starts from the tables that
-- other requests have left by then: `others` is what they commit after the order was priced.
-- `number` is the order number that `generateOrderNumber` draws, and `now` the clock.
use vedhicfoods.Prelude.{
  ℕ, ◌+◌, Bool, true, false, ◌&&◌, ◌||◌, not, Option, none, some, List, [], ◌∷◌, map, filter_by,
  any_by, contains, ◌==◌, if◌then◌else◌,
}
use vedhicfoods.Prelude.Int.{pos}
use vedhicfoods.Prelude.Text.{or_null, or_else}
use vedhicfoods.Result.{
  Result, ok, err, Error, bad_request, forbidden, not_found, conflict, unavailable, require, ◌>>=◌,
  ◌>>◌,
}
use vedhicfoods.Inventory.State.{AuditAction, ReservationItem}
use vedhicfoods.Inventory.Service.{Tx, MovedItem, reserve_stock, confirm_deduction, audited}
use vedhicfoods.Orders.Status.{OrderStatus}
use vedhicfoods.Orders.Store.{DeliveryStatus}
use vedhicfoods.Discounts.Coupon.{CouponDb}
use vedhicfoods.Discounts.Service.{Evaluation, record_coupon_usage}
use vedhicfoods.Cart.Store.{Cart, CartItem, Identity, find_cart, same_key}
use vedhicfoods.Cart.Service.{ensure_cart}
use vedhicfoods.Checkout.Shop.{
  Shop, Sale, Customer, Snapshot, PaymentMethod, PaymentStatus, PaymentRecordStatus, PaymentConfig,
  Event, same_method, cart_tables, find_by_key, reservations,
}
use vedhicfoods.Checkout.Pricing.{Quote, quote}

-- `CheckoutInputDTO`; a missing list of items is the empty one.
pub record CheckoutInput : Type 0 where
  pub address_id : Option ℕ
  pub address : Option Snapshot
  pub payment_method : PaymentMethod
  pub coupon_code : Option ℕ
  pub items : List ReservationItem
  pub idempotency_key : Option ℕ

-- `input.idempotencyKey || headerIdempotencyKey || null`
abbrev pub effective_key : CheckoutInput → Option ℕ → Option ℕ
effective_key input header = elim input.idempotency_key [ none ↦ header | some key ↦ some key ]

unfoldable pub probe : Option ℕ → List Sale → Option Sale
probe none sales = none
probe (some key) sales = find_by_key key sales

-- Step 2: the customer's account must be valid and active.
unfoldable pub active_customer : ℕ → Shop → Result Customer
active_customer user s = elim (s.customers user) [
  | none ↦ err forbidden
  | some c ↦ if c.is_active && not c.is_deleted then ok c else err forbidden
]

-- `PaymentSettingsService.assertOnlinePaymentAllowed`
unfoldable pub assert_online_payment_allowed : PaymentMethod → PaymentConfig → Result (Unit {0})
assert_online_payment_allowed PaymentMethod.cod config = ok tt
assert_online_payment_allowed method config =
    require config.online_enabled unavailable
    >> require (any_by (same_method method) config.enabled_methods) bad_request

-- The defaults of the copy of an address; a country that the request leaves out is the empty string.
abbrev pub with_defaults : Snapshot → Snapshot
with_defaults content = record content {
  line2 = or_null content.line2;
  landmark = or_null content.landmark;
  country = or_else content.country "India";
}

-- Step 3: the address, and its copy for the order.
unfoldable pub resolve_address : CheckoutInput → ℕ → Shop → Result (Option ℕ × Snapshot)
resolve_address input user s = elim input.address_id [
  | some id ↦ elim (s.addresses id) [
    | none ↦ err not_found
    | some a ↦
        if a.is_deleted
        then err not_found
        else if a.user == user
        then ok (some a.id, with_defaults a.content)
        else err forbidden
  ]
  | none ↦ elim input.address [
    | none ↦ err bad_request
    | some content ↦ ok (none, with_defaults content)
  ]
]

-- What is settled before the items are read.
pub record Buyer : Type 0 where
  pub customer : Customer
  pub address : Option ℕ
  pub snapshot : Snapshot

unfoldable pub resolve_buyer : CheckoutInput → ℕ → Shop → Result Buyer
resolve_buyer input user s = do
  customer ← active_customer user s
  allowed ← assert_online_payment_allowed input.payment_method s.config
  place ← resolve_address input user s
  ok (record { customer = customer; address = place.0; snapshot = place.1 })

abbrev pub owner : ℕ → Identity
owner user = record { user = some user; session_token = none }

-- `CartService.getOrCreateCart(userId)`, which is called when the request lists no items.
unfoldable pub open_cart : CheckoutInput → ℕ → Shop → Shop
open_cart input user s = elim input.items [
  | item ∷ items ↦ s
  | [] ↦
      let tables = ensure_cart (owner user) (cart_tables s) in
      record s { carts = tables.carts; next_id = tables.next_id }
]

abbrev pub cart_lines : ℕ → List CartItem → List ReservationItem
cart_lines cart items =
    map (λ (i : CartItem). record { product = i.product; quantity = pos i.quantity })
      (filter_by (λ i. i.cart == cart) items)

-- Step 4: the items of the request, or of the customer's cart.
unfoldable pub raw_items : CheckoutInput → ℕ → Shop → Result (List ReservationItem)
raw_items input user s = elim input.items [
  | item ∷ items ↦ ok (item ∷ items)
  | [] ↦ elim (find_cart (owner user) s.carts) [
    | none ↦ err bad_request
    | some cart ↦ elim (cart_lines cart.id s.cart_items) [
      | [] ↦ err bad_request
      | line ∷ lines ↦ ok (line ∷ lines)
    ]
  ]
]

-- The row of a new order: cash on delivery is confirmed at once, and no order starts paid.
unfoldable pub new_sale : CheckoutInput → Option ℕ → ℕ → ℕ → ℕ → ℕ → Buyer → Quote → Sale
new_sale input key now number id user buyer q = record {
  base = record {
    id = id;
    number = number;
    user = user;
    email = buyer.customer.email;
    status =
        if same_method input.payment_method PaymentMethod.cod
        then OrderStatus.confirmed
        else OrderStatus.pending_payment;
    items = map (λ l. record { product = some l.product; quantity = l.quantity }) q.lines;
    delivery = some DeliveryStatus.pending;
    created_at = now;
  };
  idempotency_key = key;
  address = buyer.address;
  snapshot = buyer.snapshot;
  lines = q.lines;
  subtotal = q.subtotal;
  savings = q.savings;
  shipping = q.shipping;
  tax = q.tax;
  discount = q.discount;
  total = q.total;
  payment_status = PaymentStatus.pending;
  payment_method = input.payment_method;
  coupon_code = elim q.coupon [ none ↦ none | some e ↦ input.coupon_code ];
}

-- The unique columns of `orders`.
unfoldable pub is_taken : Sale → Sale → Bool
is_taken new old = old.base.number == new.base.number || elim new.idempotency_key [
  | none ↦ false
  | some key ↦ same_key old.idempotency_key (some key)
]

-- Steps A to B2: the reservation and the order; a row that collides aborts with P2002.
unfoldable pub create_order : Sale → Shop → Result Shop
create_order sale t = do
  held ← reserve_stock (reservations sale.lines) none t.db
  require (not (any_by (is_taken sale) t.sales)) conflict
  ok (record t {
    db = audited AuditAction.order_created (some sale.base.id) held.1;
    sales = sale ∷ t.sales;
    next_id = t.next_id + 1;
    events = Event.order_created sale.base.id ∷ t.events;
  })

-- Step D.
unfoldable pub confirm_if_cod : Sale → Tx (List MovedItem)
confirm_if_cod sale db = elim sale.payment_method [
  | PaymentMethod.cod ↦ confirm_deduction (reservations sale.lines) (some sale.base.id) db
  | _ ↦ ok ([], db)
]

-- Step E: the lines of the customer's cart whose products were bought.
unfoldable pub clear_bought : ℕ → List ℕ → List Cart → List CartItem → List CartItem
clear_bought user bought carts items = elim (find_cart (owner user) carts) [
  | none ↦ items
  | some cart ↦ filter_by (λ i. not (i.cart == cart.id && contains i.product bought)) items
]

-- Step F.
unfoldable pub use_coupon : Sale → Option Evaluation → CouponDb → Result CouponDb
use_coupon sale none db = ok db
use_coupon sale (some e) db =
    record_coupon_usage
      (record {
        coupon = e.coupon;
        user = sale.base.user;
        order = sale.base.id;
        discount_applied = sale.discount;
      })
      db

-- Steps C to F.
unfoldable pub complete_order : Sale → Option Evaluation → Shop → Result Shop
complete_order sale coupon t = do
  let audited_db = audited AuditAction.delivery_created none t.db
  settled ← confirm_if_cod sale audited_db
  coupons ← use_coupon sale coupon t.coupons
  ok (record t {
    db = settled.1;
    coupons = coupons;
    cart_items = clear_bought sale.base.user (map (λ l. l.product) sale.lines) t.carts t.cart_items;
    payments =
        record {
          order = sale.base.id;
          razorpay_order = none;
          razorpay_payment = none;
          amount = sale.total;
          currency = "INR";
          status = PaymentRecordStatus.pending;
          method = sale.payment_method;
        }
        ∷ t.payments;
    delivery_history = (sale.base.id, DeliveryStatus.pending) ∷ t.delivery_history;
  })

pub record CheckoutAnswer : Type 0 where
  pub sale : Sale
  pub is_replay : Bool

-- `catch`: a collision on the idempotency key is answered with the order that won.
unfoldable pub resolve_collision : Option ℕ → ℕ → Error → Shop → Result CheckoutAnswer
resolve_collision key user conflict t = elim (probe key t.sales) [
  | none ↦ err conflict
  | some won ↦
      if won.base.user == user then ok (record { sale = won; is_replay = true }) else err conflict
]
resolve_collision key user e t = err e

-- Step 10: the transaction, which rolls back all but the event that it has sent.
unfoldable pub place_order :
    Sale → Option ℕ → Option Evaluation → Shop → Result CheckoutAnswer × Shop
place_order sale key coupon t = elim (create_order sale t) [
  | err e ↦ (resolve_collision key sale.base.user e t, t)
  | ok opened ↦ elim (complete_order sale coupon opened) [
    | err e ↦ (resolve_collision key sale.base.user e t, record t { events = opened.events })
    | ok placed ↦ (ok (record { sale = sale; is_replay = false }), placed)
  ]
]

-- Steps 4 to 10, for a buyer that was resolved.
unfoldable pub buy :
    (Shop → Shop)
    → ℕ
    → ℕ
    → ℕ
    → CheckoutInput
    → Option ℕ
    → Buyer
    → Shop
    → Result CheckoutAnswer × Shop
buy others now number user input key buyer s =
    let opened = open_cart input user s in
    elim (raw_items input user opened >>= λ items. quote now input.coupon_code user items opened) [
      | err e ↦ (err e, opened)
      | ok q ↦
          let t = others opened in
          place_order (new_sale input key now number t.next_id user buyer q) key q.coupon t
    ]

unfoldable pub process_checkout :
    (Shop → Shop) → ℕ → ℕ → ℕ → CheckoutInput → Option ℕ → Shop → Result CheckoutAnswer × Shop
process_checkout others now number user input header s =
    let key = effective_key input header in
    elim (probe key s.sales) [
      | some sale ↦
          if sale.base.user == user
          then (ok (record { sale = sale; is_replay = true }), s)
          else (err conflict, s)
      | none ↦ elim (resolve_buyer input user s) [
        | err e ↦ (err e, s)
        | ok buyer ↦ buy others now number user input key buyer s
      ]
    ]
