-- ===== src/Checkout/Shop.antt =====
-- The tables of a shop that backend/src/services/checkout.service.ts and
-- backend/src/integrations/razorpay/razorpay.service.ts read and write. Amounts are whole paise.
use Prim.Native.String.{String}
use vedhicfoods.Prelude.{ℕ, Bool, Option, none, some, List, [], ◌∷◌, map, ◌==◌, if◌then◌else◌}
use vedhicfoods.Prelude.Int.{pos}
use vedhicfoods.Inventory.State.{Product, Db, ReservationItem}
use vedhicfoods.Orders.Store.{Order, DeliveryStatus}
use vedhicfoods.Discounts.Coupon.{CouponDb}
use vedhicfoods.Cart.Store.{CatalogProduct, Cart, CartItem, CartDb, same_key}

pub data PaymentMethod : Type 0 where
  razorpay upi card netbanking cod : PaymentMethod

pub data PaymentStatus : Type 0 where
  pending processing paid failed refunded partially_refunded : PaymentStatus

pub data PaymentRecordStatus : Type 0 where
  pending authorized captured failed refunded : PaymentRecordStatus

-- The other columns of a product.
pub record Listing : Type 0 where
  pub price : ℕ
  pub mrp : ℕ
  pub category : Option ℕ
  pub is_active : Bool
  pub is_published : Bool
  pub is_deleted : Bool

pub record Customer : Type 0 where
  pub email : ℕ
  pub is_active : Bool
  pub is_deleted : Bool

-- The address that an order keeps.
pub record Snapshot : Type 0 where
  pub full_name : String
  pub phone : String
  pub line1 : String
  pub line2 : Option String
  pub landmark : Option String
  pub city : String
  pub state : String
  pub pincode : String
  pub country : String

pub record Address : Type 0 where
  pub id : ℕ
  pub user : ℕ
  pub is_deleted : Bool
  pub content : Snapshot

-- `PublicPaymentConfig`, as far as an online payment is allowed by it.
pub record PaymentConfig : Type 0 where
  pub online_enabled : Bool
  pub enabled_methods : List PaymentMethod

-- A row of `order_items`, and the category that the coupon looks at.
pub record OrderLine : Type 0 where
  pub product : ℕ
  pub category : Option ℕ
  pub price : ℕ
  pub quantity : ℕ
  pub subtotal : ℕ
  pub savings : ℕ

-- A row of `orders` with its money and its payment columns; `base` has the columns that the order
-- handlers use.
pub record Sale : Type 0 where
  pub base : Order
  pub idempotency_key : Option ℕ
  pub address : Option ℕ
  pub snapshot : Snapshot
  pub lines : List OrderLine
  pub subtotal : ℕ
  pub savings : ℕ
  pub shipping : ℕ
  pub tax : ℕ
  pub discount : ℕ
  pub total : ℕ
  pub payment_status : PaymentStatus
  pub payment_method : PaymentMethod
  pub coupon_code : Option ℕ

pub record Payment : Type 0 where
  pub order : ℕ
  pub razorpay_order : Option ℕ
  pub razorpay_payment : Option ℕ
  pub amount : ℕ
  pub currency : String
  pub status : PaymentRecordStatus
  pub method : PaymentMethod

-- What is sent out: the realtime event of a new order.
pub data Event : Type 0 where
  order_created : ℕ → Event

-- `next_id` is the id that the database gives to the next row.
pub record Shop : Type 0 where
  pub db : Db
  pub listings : ℕ → Listing
  pub carts : List Cart
  pub cart_items : List CartItem
  pub next_id : ℕ
  pub customers : ℕ → Option Customer
  pub addresses : ℕ → Option Address
  pub coupons : CouponDb
  pub config : PaymentConfig
  pub sales : List Sale
  pub payments : List Payment
  pub delivery_history : List (ℕ × DeliveryStatus)
  pub events : List Event

abbrev pub code : PaymentMethod → ℕ
code razorpay = 0
code upi = 1
code card = 2
code netbanking = 3
code cod = 4

abbrev pub same_method : PaymentMethod → PaymentMethod → Bool
same_method m n = code m == code n

-- The whole row of a product.
unfoldable pub listed : (ℕ → Listing) → Product → CatalogProduct
listed listings p = record {
  base = p;
  price = (listings p.id).price;
  mrp = (listings p.id).mrp;
  is_active = (listings p.id).is_active;
  is_published = (listings p.id).is_published;
  is_deleted = (listings p.id).is_deleted;
}

unfoldable pub catalog : Shop → List CatalogProduct
catalog s = map (listed s.listings) s.db.products

-- The tables of the shop that the cart service works on.
unfoldable pub cart_tables : Shop → CartDb
cart_tables s = record {
  products = catalog s;
  carts = s.carts;
  items = s.cart_items;
  next_id = s.next_id;
}

-- `order.findUnique({ where: { idempotencyKey } })`
unfoldable pub find_by_key : ℕ → List Sale → Option Sale
find_by_key key [] = none
find_by_key key (s ∷ ss) =
    if same_key s.idempotency_key (some key) then some s else find_by_key key ss

-- `order.findUnique({ where: { id } })`, and the write by it.
unfoldable pub find_sale : ℕ → List Sale → Option Sale
find_sale id [] = none
find_sale id (s ∷ ss) = if s.base.id == id then some s else find_sale id ss

unfoldable pub update_sale : ℕ → (Sale → Sale) → List Sale → List Sale
update_sale id change [] = []
update_sale id change (s ∷ ss) =
    if s.base.id == id then change s ∷ ss else s ∷ update_sale id change ss

-- `reservationItems`, from the lines that were priced.
unfoldable pub reservations : List OrderLine → List ReservationItem
reservations = map λ l. record { product = l.product; quantity = pos l.quantity }
