-- ===== src/Cart/MergedLines.antt =====
-- How the writes of `mergeGuestCart` in backend/src/services/cart.service.ts act on the lines of a cart.
use vedhicfoods.Prelude.{
  ℕ, ◌+◌, ◌≡◌, ◌≢◌, refl, sym, suc, subst, not, Option, none, some, List, [], ◌∷◌, ◌++◌, map, min,
  filter_by, Bool, true, ◌==◌, arith, Bool-cases, inl, inr,
}
use vedhicfoods.Cart.Store.{CartItem, find_line}
use vedhicfoods.Cart.Service.{delete_lines}
use vedhicfoods.Cart.Lines.{line_quantity, lines_of}
use vedhicfoods.Cart.Merge.{has_line, place, bump}

-- The quantity of the line that was found, if any.
abbrev pub quantity_of : Option CartItem → ℕ
quantity_of none = 0
quantity_of (some i) = i.quantity

-- A customer's line and a guest's, merged.
abbrev pub merged_quantity : Option CartItem → Option CartItem → ℕ
merged_quantity none y = quantity_of y
merged_quantity (some x) none = x.quantity
merged_quantity (some x) (some y) = min 100 (x.quantity + y.quantity)

pub line_quantity-delete_lines :
    (cart guest product : ℕ) (is : List CartItem)
    → cart ≢ guest
    → line_quantity cart product (delete_lines guest is) ≡ line_quantity cart product is
unfolding line_quantity delete_lines
line_quantity-delete_lines cart guest product [] h = refl
line_quantity-delete_lines cart guest product (i ∷ is) h =
    ground (arith, line_quantity-delete_lines cart guest product is h)

-- The first list decides, where it has the line.
pub line_quantity-append :
    (cart product : ℕ) (xs ys : List CartItem)
    → line_quantity cart product (xs ++ ys) ≡ elim (find_line cart product xs) [
      | none ↦ line_quantity cart product ys
      | some x ↦ x.quantity
    ]
unfolding line_quantity find_line
line_quantity-append cart product [] ys = refl
line_quantity-append cart product (i ∷ is) ys =
    ground (arith, line_quantity-append cart product is ys)

-- Raising quantities keeps where each line is found.
pub find_line-bump :
    (cart guest product : ℕ) (guest_items is : List CartItem) (x : CartItem)
    → find_line cart product is ≡ some x
    → find_line cart product (map (bump cart guest guest_items) is)
      ≡ some (bump cart guest guest_items x)
unfolding find_line bump
find_line-bump cart guest product guest_items [] x e = cc
find_line-bump cart guest product guest_items (i ∷ is) x e =
    ground (arith, find_line-bump cart guest product guest_items is x)

pub find_line-bump-none :
    (cart guest product : ℕ) (guest_items is : List CartItem)
    → find_line cart product is ≡ none
    → find_line cart product (map (bump cart guest guest_items) is) ≡ none
unfolding find_line bump
find_line-bump-none cart guest product guest_items [] e = refl
find_line-bump-none cart guest product guest_items (i ∷ is) e =
    ground (arith, find_line-bump-none cart guest product guest_items is)

-- The new lines hold what the guest had of the product.
pub line_quantity-place :
    (id cart guest product : ℕ) (test : CartItem → Bool) (is : List CartItem)
    → ((i : CartItem) → i.product ≡ product → test i ≡ true)
    → line_quantity cart product (place id cart (filter_by test (lines_of guest is)))
      ≡ quantity_of (find_line guest product is)
unfolding line_quantity place find_line
line_quantity-place id cart guest product test [] h = refl
line_quantity-place id cart guest product test (i ∷ is) h = elim (Bool-cases (i.cart == guest)) [
  | inr other ↦ let rest = line_quantity-place id cart guest product test is h in rw other rest
  | inl mine ↦ elim (Bool-cases (test i)) [
    | inl kept ↦
        let rest = line_quantity-place (suc id) cart guest product test is h in
        rw (mine, kept) (ground (arith, rest))
    | inr dropped ↦
        let rest = line_quantity-place id cart guest product test is h in
        rw (mine, dropped) (ground (arith, rest, h i, dropped))
  ]
]

pub find_line-lines_of :
    (guest product : ℕ) (is : List CartItem)
    → find_line guest product (lines_of guest is) ≡ find_line guest product is
unfolding find_line
find_line-lines_of guest product [] = refl
find_line-lines_of guest product (i ∷ is) = ground (arith, find_line-lines_of guest product is)

quantity-bump :
    (guest : ℕ) (guest_items : List CartItem) (x : CartItem)
    → (bump x.cart guest guest_items x).quantity
      ≡ merged_quantity (some x) (find_line guest x.product guest_items)
unfolding bump
quantity-bump guest guest_items x = ground arith

pub quantity-bump_at :
    (cart guest product : ℕ) (guest_items : List CartItem) (x : CartItem)
    → x.cart ≡ cart
    → x.product ≡ product
    → (bump cart guest guest_items x).quantity
      ≡ merged_quantity (some x) (find_line guest product guest_items)
quantity-bump_at cart guest product guest_items x own same =
    subst
      (λ c.
        (bump c guest guest_items x).quantity
        ≡ merged_quantity (some x) (find_line guest product guest_items))
      own
      (subst
        (λ k.
          (bump x.cart guest guest_items x).quantity
          ≡ merged_quantity (some x) (find_line guest k guest_items))
        same (quantity-bump guest guest_items x))

no_line :
    (cart product : ℕ) (is : List CartItem)
    → find_line cart product is ≡ none
    → not (has_line cart product is) ≡ true
unfolding has_line
no_line cart product is missing = ground arith

pub not-has_line :
    (cart product : ℕ) (is : List CartItem) (i : CartItem)
    → find_line cart product is ≡ none
    → i.product ≡ product
    → not (has_line cart i.product is) ≡ true
not-has_line cart product is i missing e =
    subst (λ k. not (has_line cart k is) ≡ true) (sym e) (no_line cart product is missing)

pub find_line-is_line :
    (cart product : ℕ) (is : List CartItem) (x : CartItem)
    → find_line cart product is ≡ some x
    → (x.cart ≡ cart) × (x.product ≡ product)
unfolding find_line
find_line-is_line cart product [] x e = cc
find_line-is_line cart product (i ∷ is) x e = ground (arith, find_line-is_line cart product is x)
