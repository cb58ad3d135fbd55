-- ===== src/Cart/Store.antt =====
-- The tables that backend/src/services/cart.service.ts reads and writes: the catalogue, the carts and
-- their items. Prices are whole paise. The lists are in the order of creation.
use vedhicfoods.Prelude.{
  ℕ, Bool, true, false, ◌&&◌, not, Option, none, some, List, [], ◌∷◌, ◌==◌, if◌then◌else◌,
}
use vedhicfoods.Inventory.State.{Product, has_key}

-- What the cart reads of a product; `is_published` says whether its status is PUBLISHED.
pub record CatalogProduct : Type 0 where
  pub base : Product
  pub price : ℕ
  pub mrp : ℕ
  pub is_active : Bool
  pub is_published : Bool
  pub is_deleted : Bool

-- A cart belongs to a signed-in customer or to a guest's session; the other column is null.
pub record Cart : Type 0 where
  pub id : ℕ
  pub user : Option ℕ
  pub session_token : Option ℕ

-- `extractIdentity` of backend/src/controllers/cart.controller.ts: both may be missing.
pub record Identity : Type 0 where
  pub user : Option ℕ
  pub session_token : Option ℕ

pub record CartItem : Type 0 where
  pub id : ℕ
  pub cart : ℕ
  pub product : ℕ
  pub quantity : ℕ
  pub price_snapshot : ℕ

-- `next_id` is the id that the database gives to the next row.
pub record CartDb : Type 0 where
  pub products : List CatalogProduct
  pub carts : List Cart
  pub items : List CartItem
  pub next_id : ℕ

-- A null in `where` is matched by null.
abbrev pub same_key : Option ℕ → Option ℕ → Bool
same_key none none = true
same_key (some i) (some j) = i == j
same_key none (some j) = false
same_key (some i) none = false

-- `userId ? { userId } : { sessionToken }`
unfoldable pub is_cart_of : Identity → Cart → Bool
is_cart_of who c = elim who.user [
  | some u ↦ same_key c.user (some u)
  | none ↦ same_key c.session_token who.session_token
]

-- `cart.findFirst`; where several carts match, PostgreSQL may choose any, and the model the oldest.
unfoldable pub find_cart : Identity → List Cart → Option Cart
unfolding is_cart_of
find_cart who [] = none
find_cart who (c ∷ cs) = if is_cart_of who c then some c else find_cart who cs

-- The product of a line, by the foreign key.
unfoldable pub find_product : ℕ → List CatalogProduct → Option CatalogProduct
find_product id [] = none
find_product id (p ∷ ps) = if p.base.id == id then some p else find_product id ps

-- `OR: [{ id: key }, { slug: key }], isDeleted: false`
unfoldable pub find_for_sale : ℕ → List CatalogProduct → Option CatalogProduct
find_for_sale key [] = none
find_for_sale key (p ∷ ps) =
    if has_key key p.base && not p.is_deleted then some p else find_for_sale key ps

-- `product.inventory ? inventory.availableQuantity : product.stock`
unfoldable pub available_quantity : CatalogProduct → ℕ
available_quantity p = elim p.base.inventory [ none ↦ p.base.stock | some i ↦ i.available ]

-- `where: { cartId_productId }`
abbrev pub is_line : ℕ → ℕ → CartItem → Bool
is_line cart product i = i.cart == cart && i.product == product

unfoldable pub find_line : ℕ → ℕ → List CartItem → Option CartItem
find_line cart product [] = none
find_line cart product (i ∷ is) =
    if is_line cart product i then some i else find_line cart product is

-- `cartItem.upsert` on the composite key
unfoldable pub upsert_line : CartItem → List CartItem → List CartItem
upsert_line new [] = new ∷ []
upsert_line new (i ∷ is) =
    if is_line new.cart new.product i
    then record i { quantity = new.quantity; price_snapshot = new.price_snapshot } ∷ is
    else i ∷ upsert_line new is

unfoldable pub find_item : ℕ → List CartItem → Option CartItem
find_item id [] = none
find_item id (i ∷ is) = if i.id == id then some i else find_item id is

-- `cartItem.update` and `cartItem.delete` by the primary key
unfoldable pub update_item : ℕ → (CartItem → CartItem) → List CartItem → List CartItem
update_item id change [] = []
update_item id change (i ∷ is) = if i.id == id then change i ∷ is else i ∷ update_item id change is

unfoldable pub delete_item : ℕ → List CartItem → List CartItem
delete_item id [] = []
delete_item id (i ∷ is) = if i.id == id then is else i ∷ delete_item id is
