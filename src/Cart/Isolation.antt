-- ===== src/Cart/Isolation.antt =====
-- Whose cart `updateItemQuantity` and `removeItem` of backend/src/services/cart.service.ts change.
use vedhicfoods.Prelude.{
  ℕ, suc, ◌≡◌, ◌≢◌, ◌⊎◌, subst, Bool, true, false, Option, none, some, get_elem?, List, [], ◌∷◌,
  arith, ◌==◌, Bool-cases, Option-cases, inl, inr, ◌&&◌, All,
}
use vedhicfoods.Prelude.Int.{pos}
use vedhicfoods.Result.{ok, >>=-eq-ok}
use vedhicfoods.Cart.Store.{
  Cart, CartDb, CartItem, Identity, find_cart, is_cart_of, find_item, update_item, delete_item,
  find_product, available_quantity, same_key,
}
use vedhicfoods.Cart.Service.{
  resolve, resolve_cart_item, find_by, is_of_product, remove_item, update_item_quantity,
  write_quantity, check_quantity, is_anonymous,
}
use vedhicfoods.Cart.Lines.{lines_of, lines_of-delete_item, lines_of-update_item}
use vedhicfoods.Cart.Adding.{answer-ok, >>-eq-ok}

-- The primary key: every item that a query returns is the one that its id finds.
abbrev pub IsKeyed : List CartItem → Type 0
IsKeyed is =
    (test : CartItem → Bool) (i : CartItem) → find_by test is ≡ some i → find_item i.id is ≡ some i

find_by-test :
    (test : CartItem → Bool) (is : List CartItem) (i : CartItem)
    → find_by test is ≡ some i
    → test i ≡ true
unfolding find_by
find_by-test test [] i e = cc
find_by-test test (x ∷ is) i e = elim (Bool-cases (test x)) [
  | inl hit ↦ ground arith
  | inr miss ↦ find_by-test test is i (rw miss at e)
]

find_item-id : (id : ℕ) (is : List CartItem) (i : CartItem) → find_item id is ≡ some i → i.id ≡ id
unfolding find_item
find_item-id id [] i e = cc
find_item-id id (x ∷ is) i e = ground (arith, find_item-id id is i)

find_cart-is_cart_of :
    (who : Identity) (cs : List Cart) (c : Cart)
    → find_cart who cs ≡ some c
    → is_cart_of who c ≡ true
unfolding find_cart
find_cart-is_cart_of who [] c e = cc
find_cart-is_cart_of who (x ∷ cs) c e = elim (Bool-cases (is_cart_of who x)) [
  | inl hit ↦ ground arith
  | inr miss ↦ find_cart-is_cart_of who cs c (rw miss at e)
]

find_cart-All :
    (P : Cart → Type 0) (who : Identity) (cs : List Cart) (c : Cart)
    → All P cs
    → find_cart who cs ≡ some c
    → P c
unfolding find_cart
find_cart-All P who [] c a e = cc
find_cart-All P who (x ∷ cs) c a e = elim (Bool-cases (is_cart_of who x)) [
  | inl hit ↦ let same : x ≡ c = ground arith in subst P same a.0
  | inr miss ↦ find_cart-All P who cs c a.1 (rw miss at e)
]

resolve_cart_item-own :
    (cart key : ℕ) (db : CartDb) (i : CartItem)
    → IsKeyed db.items
    → resolve_cart_item cart key db ≡ ok i
    → (i.cart ≡ cart) × (find_item i.id db.items ≡ some i)
unfolding resolve_cart_item
resolve_cart_item-own cart key db i keyed e = elim (Option-cases (find_item key db.items)) [
  | inr (x, found) ↦ elim (Bool-cases (x.cart == cart)) [
    | inl own ↦
        let same : x ≡ i = cc (rw (found, resolve_cart_item, own) at e) in
        let here = find_item-id key db.items x found in (ground arith, cc (here, same, found))
    | inr other ↦ absurd (cc (rw (found, resolve_cart_item, other) at e))
  ]
  | inl missing ↦
      let test = λ (x : CartItem). x.cart == cart && is_of_product key db.products x in
      elim (Option-cases (find_by test db.items)) [
        | inr (x, found) ↦
            let same : x ≡ i = cc (rw (missing, resolve_cart_item, found) at e) in
            let hit = find_by-test test db.items x found in
            let here = keyed test x found in (ground arith, cc (same, here))
        | inl none_there ↦ absurd (unresolved missing none_there)
      ]
]
  where
    unresolved :
        find_item key db.items ≡ none
        → find_by (λ (x : CartItem). x.cart == cart && is_of_product key db.products x) db.items
          ≡ none
        → ⊥
    unresolved missing none_there =
        let e' = rw (missing, resolve_cart_item, none_there) at e in ground arith

-- The line that a key resolves to lies in the cart of the caller.
pub resolve-own :
    (key : ℕ) (who : Identity) (db : CartDb) (i : CartItem)
    → IsKeyed db.items
    → resolve key who db ≡ ok i
    → (c : Cart) × (find_cart who db.carts ≡ some c)
      × (i.cart ≡ c.id)
      × (find_item i.id db.items ≡ some i)
unfolding resolve
resolve-own key who db i keyed e = elim (Option-cases (find_cart who db.carts)) [
  | inl missing ↦ absurd (cc (rw (missing, resolve) at e))
  | inr (c, found) ↦
      let own = resolve_cart_item-own c.id key db i keyed (rw (found, resolve) at e) in
      (c, found, own.0, own.1)
]

-- Only the lines of one cart changed.
abbrev pub OnlyCart : ℕ → CartDb → CartDb → Type 0
OnlyCart cart db db' =
    (other : ℕ) → other ≢ cart → lines_of other db'.items ≡ lines_of other db.items

write_quantity-OnlyCart :
    (quantity : ℕ) (i : CartItem) (db db' : CartDb)
    → find_item i.id db.items ≡ some i
    → write_quantity quantity i db ≡ ok db'
    → OnlyCart i.cart db db'
unfolding write_quantity
write_quantity-OnlyCart quantity i db db' found e other differ =
    elim (Option-cases (find_product i.product db.products)) [
      | inl missing ↦ absurd (cc (rw (missing, write_quantity) at e))
      | inr (p, here) ↦
          let written =
            >>-eq-ok (check_quantity quantity (available_quantity p))
              (ok (record db {
                items =
                    update_item i.id
                      (λ x. record x { quantity = quantity; price_snapshot = p.price }) db.items;
              }))
              (rw (here, write_quantity) at e) in
          ground (arith, lines_of-update_item i.id other quantity p.price db.items i found)
    ]

delete-OnlyCart :
    (i : CartItem) (db db' : CartDb)
    → find_item i.id db.items ≡ some i
    → db'.items ≡ delete_item i.id db.items
    → OnlyCart i.cart db db'
delete-OnlyCart i db db' found e other differ =
    ground (arith, lines_of-delete_item i.id other db.items i found)

-- The cart stands in the table.
abbrev pub IsCart : Cart → CartDb → Type 0
IsCart c db = (k : ℕ) × (get_elem? db.carts k ≡ some c)

find_cart-IsCart :
    (who : Identity) (cs : List Cart) (c : Cart)
    → find_cart who cs ≡ some c
    → (k : ℕ) × (get_elem? cs k ≡ some c)
unfolding find_cart
find_cart-IsCart who [] c e = cc
find_cart-IsCart who (x ∷ cs) c e = elim (Bool-cases (is_cart_of who x)) [
  | inl hit ↦ (0, ground arith)
  | inr miss ↦ let (k, at) = find_cart-IsCart who cs c (rw miss at e) in (suc k, at)
]

-- The cart is that of the caller's account or, for a guest, that of the session token.
abbrev pub IsOwn : Identity → Cart → Type 0
IsOwn who c =
    ((u : ℕ) × (who.user ≡ some u) × (c.user ≡ some u))
    ⊎ ((t : ℕ) × (who.user ≡ none) × (who.session_token ≡ some t) × (c.session_token ≡ some t))

same_key-some : (k : Option ℕ) (n : ℕ) → same_key k (some n) ≡ true → k ≡ some n
same_key-some none n h = cc
same_key-some (some m) n h = ground arith

is_cart_of-IsOwn :
    (who : Identity) (c : Cart) → is_anonymous who ≡ false → is_cart_of who c ≡ true → IsOwn who c
unfolding is_cart_of
is_cart_of-IsOwn who c known hit = elim (Option-cases who.user) [
  | inr (u, signed_in) ↦
      inl (u, signed_in, same_key-some c.user u (rw (is_cart_of, signed_in) at hit))
  | inl guest ↦ elim (Option-cases who.session_token) [
    | inr (t, token) ↦
        inr
          (t, guest, token, same_key-some c.session_token t (rw (is_cart_of, guest, token) at hit))
    | inl no_token ↦ absurd (cc (rw (guest, no_token) at known))
  ]
]

-- Where items have distinct ids, a successful `updateItemQuantity` of a caller with an account or a
-- session token changes the lines of one cart alone, and that cart is the caller's: its account is
-- that of the caller or, for a guest, its session token is.
pub update_item_quantity-OnlyCart :
    (key quantity : ℕ) (who : Identity) (db db' : CartDb)
    → IsKeyed db.items
    → is_anonymous who ≡ false
    → update_item_quantity key (some (pos quantity)) who db ≡ (ok tt, db')
    → (c : Cart) × IsCart c db × IsOwn who c × OnlyCart c.id db db'
unfolding update_item_quantity
update_item_quantity-OnlyCart key quantity who db db' keyed known e =
    let (i, resolved, later) = >>=-eq-ok (resolve key who db) _ (answer-ok db db' _ e) in
    let (c, found, own, here) = resolve-own key who db i keyed resolved in
    let changed : OnlyCart i.cart db db' = elim (Bool-cases (quantity == 0)) [
      | inl removed ↦ delete-OnlyCart i db db' here (ground arith)
      | inr written ↦ write_quantity-OnlyCart quantity i db db' here (rw written at later)
    ] in
    (
      c,
      find_cart-IsCart who db.carts c found,
      is_cart_of-IsOwn who c known (find_cart-is_cart_of who db.carts c found),
      subst (λ k. OnlyCart k db db') own changed,
    )

-- Every cart belongs to a customer or to a session.
abbrev pub IsOwned : Cart → Type 0
IsOwned c = (c.session_token ≡ none) → (u : ℕ) × (c.user ≡ some u)

-- A caller with neither an account nor a session token who gets a line removed has removed a line that
-- stood in the table from a cart of the table without a session token, which is the cart of some
-- customer, given that items have distinct ids and that every cart without a session token belongs to
-- a customer.
pub remove_item-anonymous :
    (key : ℕ) (db db' : CartDb)
    → IsKeyed db.items
    → All IsOwned db.carts
    → remove_item key (record { user = none; session_token = none }) db ≡ (ok tt, db')
    → (c : Cart) × IsCart c db
      × (c.session_token ≡ none)
      × (u : ℕ) × (c.user ≡ some u)
      × (i : CartItem) × (find_item i.id db.items ≡ some i)
      × (i.cart ≡ c.id)
      × (db'.items ≡ delete_item i.id db.items)
unfolding remove_item is_cart_of
remove_item-anonymous key db db' keyed owned e =
    let who : Identity = record { user = none; session_token = none } in
    let (i, resolved, later) = >>=-eq-ok (resolve key who db) _ (answer-ok db db' _ e) in
    let (c, found, own, here) = resolve-own key who db i keyed resolved in
    let hit = find_cart-is_cart_of who db.carts c found in
    let no_token : c.session_token ≡ none = ground arith in
    let (u, of_customer) = find_cart-All IsOwned who db.carts c owned found no_token in
    (c, find_cart-IsCart who db.carts c found, no_token, u, of_customer, i, here, own, ground arith)
