-- ===== src/Cart/Calls.antt =====
-- Histories of calls of backend/src/services/cart.service.ts, and the bound on a line through them.
use vedhicfoods.Prelude.{
  ℕ, ◌≤◌, ◌<◌, ◌≡◌, Option, none, some, List, [], ◌∷◌, arith, All, ltb, ◌==◌, if◌then◌else◌,
  Bool-cases, Option-cases, inl, inr,
}
use vedhicfoods.Prelude.Int.{ℤ, pos, negsuc, pos_part}
use vedhicfoods.Result.{ok, ◌>>=◌, >>=-eq-ok}
use vedhicfoods.Cart.Store.{
  CartDb, CartItem, Identity, find_cart, find_product, update_item, delete_item,
}
use vedhicfoods.Cart.Service.{
  add_item, add_in_transaction, ensure_cart, resolve, write_quantity, update_item_quantity,
  remove_item, clear_cart, delete_lines, is_anonymous,
}
use vedhicfoods.Cart.Merge.{merge_guest_cart}
use vedhicfoods.Cart.Lines.{lines_of}
use vedhicfoods.Cart.Merging.{List-cases}
use vedhicfoods.Cart.Adding.{add_in_transaction-found}
use vedhicfoods.Cart.Caps.{
  IsCapped, IsCappedDb, All-filter_by, All-delete_item, All-update_item, IsCappedDb-ensure_cart,
  IsCappedDb-answer, add_line-IsCappedDb, merge_lines-IsCappedDb,
}

add_item-IsCappedDb :
    (key : ℕ) (qty : Option ℤ) (who : Identity) (db : CartDb)
    → IsCappedDb db
    → IsCappedDb (add_item key qty who db).1
unfolding add_item
add_item-IsCappedDb key none who db a = a
add_item-IsCappedDb key (some qty) who db a = elim (Bool-cases (ltb 0 (pos_part qty))) [
  | inr refused ↦ rw refused a
  | inl positive ↦ rw positive (
      IsCappedDb-answer (ensure_cart who db) _ (IsCappedDb-ensure_cart who db a)
        (λ db' e. added db' e (ground arith)))
]
  where
    added :
        (db' : CartDb)
        → add_in_transaction key (pos_part qty) who (ensure_cart who db) ≡ ok db'
        → 0 < pos_part qty
        → IsCappedDb db'
    added db' e positive =
        let (p, cart, _, _, done) =
          add_in_transaction-found key (pos_part qty) who (ensure_cart who db) db' e in
        add_line-IsCappedDb p (pos_part qty) cart.id (ensure_cart who db) db' positive
          (IsCappedDb-ensure_cart who db a) done

written_line-IsCappedDb :
    (quantity : ℕ) (i : CartItem) (db db' : CartDb)
    → 0 < quantity
    → IsCappedDb db
    → write_quantity quantity i db ≡ ok db'
    → IsCappedDb db'
unfolding write_quantity
written_line-IsCappedDb quantity i db db' positive a e =
    elim (Option-cases (find_product i.product db.products)) [
      | inl missing ↦ absurd (cc (rw (missing, write_quantity) at e))
      | inr (p, found) ↦
          let e' = rw (found, write_quantity) at e in
          let change =
            λ (x : CartItem). record x { quantity = quantity; price_snapshot = p.price } in
          let items : db'.items ≡ update_item i.id change db.items = ground arith in
          let low : quantity ≤ 100 = ground arith in
          rw items
            (All-update_item IsCapped i.id change db.items (λ x. (omega (arith, positive), low)) a)
    ]

update_item_quantity-IsCappedDb :
    (key : ℕ) (qty : Option ℤ) (who : Identity) (db : CartDb)
    → IsCappedDb db
    → IsCappedDb (update_item_quantity key qty who db).1
unfolding update_item_quantity
update_item_quantity-IsCappedDb key none who db a = a
update_item_quantity-IsCappedDb key (some (negsuc n)) who db a = a
update_item_quantity-IsCappedDb key (some (pos quantity)) who db a =
    let change = λ (item : CartItem).
      if quantity == 0
      then ok (record db { items = delete_item item.id db.items })
      else write_quantity quantity item db in
    IsCappedDb-answer db (resolve key who db >>= change) a λ db' e.
      let (i, resolved, later) = >>=-eq-ok (resolve key who db) change e in
      elim (Bool-cases (quantity == 0)) [
        | inl removed ↦
            let items : db'.items ≡ delete_item i.id db.items = ground arith in
            rw items (All-delete_item IsCapped i.id db.items a)
        | inr kept ↦ written_line-IsCappedDb quantity i db db' (ground arith) a (rw kept at later)
      ]

remove_item-IsCappedDb :
    (key : ℕ) (who : Identity) (db : CartDb) → IsCappedDb db → IsCappedDb (remove_item key who db).1
unfolding remove_item
remove_item-IsCappedDb key who db a =
    let change = λ (item : CartItem). ok (record db { items = delete_item item.id db.items }) in
    IsCappedDb-answer db (resolve key who db >>= change) a λ db' e.
      let (i, resolved, later) = >>=-eq-ok (resolve key who db) change e in
      let items : db'.items ≡ delete_item i.id db.items = ground arith in
      rw items (All-delete_item IsCapped i.id db.items a)

clear_cart-IsCappedDb :
    (who : Identity) (db : CartDb) → IsCappedDb db → IsCappedDb (clear_cart who db).1
unfolding clear_cart delete_lines
clear_cart-IsCappedDb who db a =
    let kept = IsCappedDb-ensure_cart who db a in
    elim (Bool-cases (is_anonymous who)) [
      | inl anonymous ↦ rw anonymous a
      | inr known ↦ elim (Option-cases (find_cart who (ensure_cart who db).carts)) [
        | inl missing ↦ rw (known, missing) kept
        | inr (cart, found) ↦ rw (known, found) (All-filter_by IsCapped _ _ kept)
      ]
    ]

merge_guest_cart-IsCappedDb :
    (user session : ℕ) (db : CartDb)
    → IsCappedDb db
    → IsCappedDb (merge_guest_cart user session db).1
unfolding merge_guest_cart
merge_guest_cart-IsCappedDb user session db a =
    let customer : Identity = record { user = some user; session_token = none } in
    let guest : Identity = record { user = none; session_token = some session } in
    let kept = IsCappedDb-ensure_cart customer db a in
    elim (Option-cases (find_cart guest db.carts)) [
      | inl missing ↦ rw (missing, merge_guest_cart) kept
      | inr (g, found) ↦ elim (List-cases (lines_of g.id db.items)) [
        | inl empty ↦ rw (found, merge_guest_cart, empty) kept
        | inr (i, is, lines) ↦
            let theirs : All IsCapped (i ∷ is) =
              rw lines at (All-filter_by IsCapped (λ i. i.cart == g.id) db.items a) in
            elim (Option-cases (find_cart customer (ensure_cart customer db).carts)) [
              | inl none_there ↦ rw (found, merge_guest_cart, lines, none_there) kept
              | inr (c, own) ↦
                  rw (found, merge_guest_cart, lines, own)
                    (merge_lines-IsCappedDb c.id g.id (i ∷ is) (ensure_cart customer db) theirs
                      kept)
            ]
      ]
    ]

-- The methods that change carts, with their arguments.
pub data CartCall : Type 0 where
  adds updates : ℕ → Option ℤ → Identity → CartCall
  removes : ℕ → Identity → CartCall
  clears : Identity → CartCall
  merges : ℕ → ℕ → CartCall

unfoldable pub cart_call : CartCall → CartDb → CartDb
cart_call (adds key qty who) db = (add_item key qty who db).1
cart_call (updates key qty who) db = (update_item_quantity key qty who db).1
cart_call (removes key who) db = (remove_item key who db).1
cart_call (clears who) db = (clear_cart who db).1
cart_call (merges user session) db = (merge_guest_cart user session db).1

unfoldable pub cart_calls : List CartCall → CartDb → CartDb
cart_calls [] db = db
cart_calls (c ∷ cs) db = cart_calls cs (cart_call c db)

cart_call-IsCappedDb : (c : CartCall) (db : CartDb) → IsCappedDb db → IsCappedDb (cart_call c db)
unfolding cart_call
cart_call-IsCappedDb (adds key qty who) db = add_item-IsCappedDb key qty who db
cart_call-IsCappedDb (updates key qty who) db = update_item_quantity-IsCappedDb key qty who db
cart_call-IsCappedDb (removes key who) db = remove_item-IsCappedDb key who db
cart_call-IsCappedDb (clears who) db = clear_cart-IsCappedDb who db
cart_call-IsCappedDb (merges user session) db = merge_guest_cart-IsCappedDb user session db

-- Through any sequence of additions, changes, removals, clearings and merges, by whomever, every line
-- of every cart holds between 1 and 100 units if each did at the start.
pub cart_calls-IsCappedDb :
    (cs : List CartCall) (db : CartDb) → IsCappedDb db → IsCappedDb (cart_calls cs db)
unfolding cart_calls
cart_calls-IsCappedDb [] db a = a
cart_calls-IsCappedDb (c ∷ cs) db a =
    cart_calls-IsCappedDb cs (cart_call c db) (cart_call-IsCappedDb c db a)
