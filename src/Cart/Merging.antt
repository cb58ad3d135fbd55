-- ===== src/Cart/Merging.antt =====
-- What `mergeGuestCart` makes of the lines of the two carts.
use vedhicfoods.Prelude.{
  ℕ, ◌≡◌, ◌≢◌, refl, sym, ap, subst, not, Option, none, some, List, [], ◌∷◌, ◌++◌, map, filter_by,
  arith, ◌∙◌, Option-cases, inl, inr, ◌⊎◌,
}
use vedhicfoods.Result.{ok}
use vedhicfoods.Cart.Adding.{ensure_cart-items}
use vedhicfoods.Cart.Store.{Cart, find_cart, CartItem, CartDb, find_line}
use vedhicfoods.Cart.Service.{delete_lines, ensure_cart}
use vedhicfoods.Cart.Lines.{line_quantity, lines_of}
use vedhicfoods.Cart.Merge.{has_line, place, bump, merge_lines, merge_guest_cart}
use vedhicfoods.Cart.MergedLines.{
  quantity_of, merged_quantity, line_quantity-delete_lines, line_quantity-append, find_line-bump,
  find_line-bump-none, line_quantity-place, find_line-lines_of, quantity-bump_at, not-has_line,
  find_line-is_line,
}

-- After the merge of two carts, the customer's line of every product holds both carts' quantities, up
-- to 100 units where both had the product.
merge_lines-quantity :
    (cart guest product : ℕ) (db : CartDb)
    → cart ≢ guest
    → line_quantity cart product (merge_lines cart guest (lines_of guest db.items) db).items
      ≡ merged_quantity (find_line cart product db.items) (find_line guest product db.items)
unfolding merge_lines
merge_lines-quantity cart guest product db differ =
    let guest_items = lines_of guest db.items in
    let raised = map (bump cart guest guest_items) db.items in
    let test = λ (i : CartItem). not (has_line cart i.product db.items) in
    let placed = place db.next_id cart (filter_by test guest_items) in
    line_quantity-delete_lines cart guest product (raised ++ placed) differ
    ∙ line_quantity-append cart product raised placed
    ∙ elim (Option-cases (find_line cart product db.items)) [
      | inl missing ↦
          rw (find_line-bump-none cart guest product guest_items db.items missing, missing)
            (line_quantity-place db.next_id cart guest product test db.items
              (λ i e. not-has_line cart product db.items i missing e))
      | inr (x, found) ↦
          let (own, same) = find_line-is_line cart product db.items x found in
          rw (find_line-bump cart guest product guest_items db.items x found, found)
            (rw (find_line-lines_of guest product db.items) at
              (quantity-bump_at cart guest product guest_items x own same))
    ]

merge_lines-at :
    (cart guest product : ℕ) (items : List CartItem) (db : CartDb)
    → db.items ≡ items
    → cart ≢ guest
    → line_quantity cart product (merge_lines cart guest (lines_of guest items) db).items
      ≡ merged_quantity (find_line cart product items) (find_line guest product items)
merge_lines-at cart guest product items db same differ =
    subst
      (λ is.
        line_quantity cart product (merge_lines cart guest (lines_of guest is) db).items
        ≡ merged_quantity (find_line cart product is) (find_line guest product is))
      same (merge_lines-quantity cart guest product db differ)

line_quantity-deleted :
    (cart product : ℕ) (is : List CartItem) → line_quantity cart product (delete_lines cart is) ≡ 0
unfolding line_quantity delete_lines
line_quantity-deleted cart product [] = refl
line_quantity-deleted cart product (i ∷ is) = ground (arith, line_quantity-deleted cart product is)

merge_lines-emptied :
    (cart guest product : ℕ) (items : List CartItem) (db : CartDb)
    → line_quantity guest product (merge_lines cart guest (lines_of guest items) db).items ≡ 0
unfolding merge_lines
merge_lines-emptied cart guest product items db = line_quantity-deleted guest product _

-- A cart without lines.
no_lines :
    (cart product : ℕ) (is : List CartItem)
    → lines_of cart is ≡ []
    → (find_line cart product is ≡ none) × (line_quantity cart product is ≡ 0)
unfolding find_line line_quantity
no_lines cart product [] e = (refl, refl)
no_lines cart product (i ∷ is) e = ground (arith, no_lines cart product is)

line_quantity-quantity_of :
    (cart product : ℕ) (is : List CartItem)
    → line_quantity cart product is ≡ quantity_of (find_line cart product is)
unfolding find_line line_quantity
line_quantity-quantity_of cart product [] = refl
line_quantity-quantity_of cart product (i ∷ is) =
    ground (arith, line_quantity-quantity_of cart product is)

merged_quantity-none : (o : Option CartItem) → merged_quantity o none ≡ quantity_of o
merged_quantity-none none = refl
merged_quantity-none (some x) = refl

pub List-cases {ℓ} :
    {A : Type ℓ} (xs : List A) → (xs ≡ []) ⊎ ((x : A) × (ys : List A) × (xs ≡ x ∷ ys))
List-cases [] = inl refl
List-cases (x ∷ ys) = inr (x, ys, refl)

-- `mergeGuestCart` of a guest's cart into another cart succeeds; the customer's line of every product
-- then holds both carts' quantities, up to 100 units where both had the product, and the guest's cart
-- has no line left.
pub merge_guest_cart-quantity :
    (user session product : ℕ) (db : CartDb) (g c : Cart)
    → find_cart (record { user = none; session_token = some session }) db.carts ≡ some g
    → find_cart
        (record { user = some user; session_token = none })
        (ensure_cart (record { user = some user; session_token = none }) db).carts
      ≡ some c
    → c.id ≢ g.id
    → ((merge_guest_cart user session db).0 ≡ ok tt)
      × (line_quantity c.id product (merge_guest_cart user session db).1.items
          ≡ merged_quantity (find_line c.id product db.items) (find_line g.id product db.items))
      × (line_quantity g.id product (merge_guest_cart user session db).1.items ≡ 0)
unfolding merge_guest_cart
merge_guest_cart-quantity user session product db g c guest_found own_found differ =
    let ensured = ensure_cart (record { user = some user; session_token = none }) db in
    let same = ensure_cart-items (record { user = some user; session_token = none }) db in
    elim (List-cases (lines_of g.id db.items)) [
      | inl empty ↦
          let (nothing, zero_there) = no_lines g.id product db.items empty in
          rw (guest_found, merge_guest_cart, empty, same)
            (
              refl,
              line_quantity-quantity_of c.id product db.items
                  ∙ sym (
                      ap (merged_quantity (find_line c.id product db.items)) nothing
                      ∙ merged_quantity-none (find_line c.id product db.items)),
              zero_there,
            )
      | inr (i, is, lines) ↦
          rw (guest_found, merge_guest_cart, lines, own_found)
            (
              refl,
              rw lines at (merge_lines-at c.id g.id product db.items ensured same differ),
              rw lines at (merge_lines-emptied c.id g.id product db.items ensured),
            )
    ]
