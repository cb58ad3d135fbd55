-- ===== src/Discounts/Coverage.antt =====
-- Which lines of a cart a coupon of backend/src/services/discount.service.ts covers, and what they are
-- worth, without the filter of the service.
use mathlib.Core.Bool.{false≢true}
use vedhicfoods.Prelude.{
  ℕ, zero, suc, ◌+◌, ◌*◌, ◌≡◌, ◌⊎◌, inl, inr, refl, ◌∙◌, sym, ap, true, false, ◌&&◌, none, some,
  List, [], ◌∷◌, map, filter_by, contains, get_elem?, arith, Bool-cases, Option-cases, ◌==◌, ==_iff,
  subst,
}
use vedhicfoods.Discounts.Coupon.{
  Coupon, DiscountableItem, lookup, enrich, subtotal_from, is_eligible, is_empty,
}

-- A value stands in a list.
abbrev pub IsIn : ℕ → List ℕ → Type 0
IsIn x xs = (k : ℕ) × (get_elem? xs k ≡ some x)

-- The category of a line: its own, or that of its product.
abbrev pub HasCategory : List (ℕ × ℕ) → DiscountableItem → ℕ → Type 0
HasCategory m i k = (i.category ≡ some k) ⊎ ((i.category ≡ none) × (lookup i.product m ≡ some k))

-- A coupon covers a line by its product or by its category, and without products and categories it
-- covers every line.
pub data IsCovered (c : Coupon) (m : List (ℕ × ℕ)) (i : DiscountableItem) : Type 0 where
  unrestricted : c.products ≡ [] → c.categories ≡ [] → IsCovered c m i
  by_product : IsIn i.product c.products → IsCovered c m i
  by_category : (k : ℕ) → HasCategory m i k → IsIn k c.categories → IsCovered c m i

-- The worth of the lines that the coupon covers.
pub data CoveredWorth (c : Coupon) (m : List (ℕ × ℕ)) : List DiscountableItem → ℕ → Type 0 where
  nothing : CoveredWorth c m [] 0
  covered :
      (i : DiscountableItem) (is : List DiscountableItem) (n : ℕ)
      → IsCovered c m i
      → CoveredWorth c m is n
      → CoveredWorth c m (i ∷ is) (i.price * i.quantity + n)
  uncovered :
      (i : DiscountableItem) (is : List DiscountableItem) (n : ℕ)
      → ¬ IsCovered c m i
      → CoveredWorth c m is n
      → CoveredWorth c m (i ∷ is) n

-- The worth of all lines.
unfoldable pub worth_of : List DiscountableItem → ℕ
worth_of [] = 0
worth_of (i ∷ is) = i.price * i.quantity + worth_of is

contains-IsIn : (x : ℕ) (xs : List ℕ) → contains x xs ≡ true → IsIn x xs
contains-IsIn x [] h = cc
contains-IsIn x (y ∷ ys) h = elim (Bool-cases (x == y)) [
  | inl same ↦ (0, ap some (sym ((==_iff x y).0 same)))
  | inr other ↦ let (k, at) = contains-IsIn x ys (rw other at h) in (suc k, at)
]

IsIn-contains : (x : ℕ) (xs : List ℕ) (k : ℕ) → get_elem? xs k ≡ some x → contains x xs ≡ true
IsIn-contains x [] k e = cc
IsIn-contains x (y ∷ ys) zero e = ground arith
IsIn-contains x (y ∷ ys) (suc k) e = ground (arith, IsIn-contains x ys k e)

enrich-HasCategory :
    (m : List (ℕ × ℕ)) (i : DiscountableItem) (k : ℕ)
    → (enrich m i).category ≡ some k
    → HasCategory m i k
unfolding enrich
enrich-HasCategory m i k e = elim (Option-cases i.category) [
  | inl missing ↦ inr (missing, rw missing at e)
  | inr (j, given) ↦ inl (given ∙ (rw given at e))
]

HasCategory-enrich :
    (m : List (ℕ × ℕ)) (i : DiscountableItem) (k : ℕ)
    → HasCategory m i k
    → (enrich m i).category ≡ some k
unfolding enrich
HasCategory-enrich m i k (inl given) = rw given refl
HasCategory-enrich m i k (inr (missing, found)) = rw missing found

is_empty-nil : (xs : List ℕ) → is_empty xs ≡ true → xs ≡ []
is_empty-nil [] h = refl
is_empty-nil (x ∷ xs) h = cc

is_eligible-IsCovered :
    (c : Coupon) (m : List (ℕ × ℕ)) (i : DiscountableItem)
    → is_eligible c (enrich m i) ≡ true
    → IsCovered c m i
unfolding is_eligible enrich
is_eligible-IsCovered c m i h = elim (Bool-cases (contains i.product c.products)) [
  | inl listed ↦ IsCovered.by_product (contains-IsIn i.product c.products listed)
  | inr unlisted ↦ elim (Bool-cases (is_empty c.products && is_empty c.categories)) [
    | inl open_to_all ↦
        IsCovered.unrestricted (is_empty-nil c.products (ground (arith, open_to_all)))
          (is_empty-nil c.categories (ground (arith, open_to_all)))
    | inr restricted ↦ elim (Option-cases (enrich m i).category) [
      | inl none_known ↦
          absurd (ground (arith, unlisted, restricted, rw (is_eligible, none_known) at h))
      | inr (k, known) ↦ elim (Bool-cases (contains k c.categories)) [
        | inl listed ↦
            IsCovered.by_category k (enrich-HasCategory m i k known)
              (contains-IsIn k c.categories listed)
        | inr other ↦
            absurd
              (ground (arith, unlisted, restricted, other, rw (is_eligible, known, other) at h))
      ]
    ]
  ]
]

contains-nonempty : (x : ℕ) (xs : List ℕ) → contains x xs ≡ true → is_empty xs ≡ false
contains-nonempty x [] h = cc
contains-nonempty x (y ∷ ys) h = refl

IsCovered-is_eligible :
    (c : Coupon) (m : List (ℕ × ℕ)) (i : DiscountableItem)
    → IsCovered c m i
    → is_eligible c (enrich m i) ≡ true
unfolding is_eligible enrich
IsCovered-is_eligible c m i (IsCovered.unrestricted p k) = rw (is_eligible, p, k) refl
IsCovered-is_eligible c m i (IsCovered.by_product (n, at)) =
    let listed = IsIn-contains i.product c.products n at in
    rw (is_eligible, contains-nonempty i.product c.products listed, listed) refl
IsCovered-is_eligible c m i (IsCovered.by_category k has (n, at)) =
    let listed = IsIn-contains k c.categories n at in
    let filled = contains-nonempty k c.categories listed in
    rw (is_eligible, filled, HasCategory-enrich m i k has, listed) (ground arith)

-- The sums of the service are those worths.
subtotal_from-worth_of :
    (m : List (ℕ × ℕ)) (acc : ℕ) (is : List DiscountableItem)
    → subtotal_from acc (map (enrich m) is) ≡ acc + worth_of is
unfolding subtotal_from worth_of enrich
subtotal_from-worth_of m acc [] = omega arith
subtotal_from-worth_of m acc (i ∷ is) =
    subtotal_from-worth_of m (acc + i.price * i.quantity) is ∙ omega arith

pub subtotal-worth_of :
    (m : List (ℕ × ℕ)) (is : List DiscountableItem)
    → subtotal_from 0 (map (enrich m) is) ≡ worth_of is
subtotal-worth_of m is = subtotal_from-worth_of m 0 is ∙ omega arith

pub subtotal_from-add :
    (acc : ℕ) (items : List DiscountableItem)
    → subtotal_from acc items ≡ acc + subtotal_from 0 items
unfolding subtotal_from
subtotal_from-add acc [] = omega arith
subtotal_from-add acc (i ∷ items) = omega (
  arith,
  subtotal_from-add (acc + i.price * i.quantity) items,
  subtotal_from-add (0 + i.price * i.quantity) items,
)

pub subtotal-CoveredWorth :
    (c : Coupon) (m : List (ℕ × ℕ)) (is : List DiscountableItem)
    → CoveredWorth c m is (subtotal_from 0 (filter_by (is_eligible c) (map (enrich m) is)))
unfolding subtotal_from enrich
subtotal-CoveredWorth c m [] = CoveredWorth.nothing
subtotal-CoveredWorth c m (i ∷ is) = elim (Bool-cases (is_eligible c (enrich m i))) [
  | inl kept ↦
      let others = filter_by (is_eligible c) (map (enrich m) is) in
      let sum : i.price * i.quantity + subtotal_from 0 others
          ≡ subtotal_from (0 + i.price * i.quantity) others =
        omega (arith, subtotal_from-add (0 + i.price * i.quantity) others) in
      rw kept (
        subst (CoveredWorth c m (i ∷ is)) sum (
          CoveredWorth.covered i is _ (is_eligible-IsCovered c m i kept)
            (subtotal-CoveredWorth c m is)))
  | inr dropped ↦ rw dropped (
      CoveredWorth.uncovered i is _
        (λ h. absurd (false≢true (sym dropped ∙ IsCovered-is_eligible c m i h)))
        (subtotal-CoveredWorth c m is))
]
