-- ===== src/Prelude/Double.antt =====
-- Binary floating-point numbers as ECMAScript computes with them, for amounts of money: a number of the
-- 53-bit format is a multiple of 2^-80, and counted in such multiples. Numbers from 2^-27 to 2^100 are
-- exact; smaller ones, which no amount or product of amounts here is, would be given more digits by the
-- format.
use native.Mathlib.Nat.{div-add-mod, mul_comm, mul_left_comm, add-mul, mul-le-mul_left, mul-pos}
use vedhicfoods.Prelude.{
  ℕ, zero, suc, ◌+◌, ◌-◌, ◌*◌, ◌/◌, ◌%◌, ◌<◌, ◌≤◌, ◌≡◌, ◌⊎◌, true, false, inl, inr, arith,
  Bool-cases, ltb, ◌==◌, if◌then◌else◌,
}

-- The number 1.
abbrev pub one : ℕ
one = 1_208_925_819_614_629_174_706_176

-- The distance of neighbouring numbers around a value; the first argument bounds the halvings.
unfoldable pub spacing : ℕ → ℕ → ℕ
spacing zero q = 1
spacing (suc n) q = elim (ltb q 9_007_199_254_740_992) [ true ↦ 1 | false ↦ 2 * spacing n (q / 2) ]

-- The quotient to the nearest whole, a half to the even one.
unfoldable pub half_even : ℕ → ℕ → ℕ
half_even n d =
    let k = n / d in
    let r = n % d in
    if ltb (2 * r) d then k else if ltb d (2 * r) then k + 1 else if k % 2 == 0 then k else k + 1

-- The number nearest to a fraction.
unfoldable pub nearest : ℕ → ℕ → ℕ
nearest num den = let u = spacing 128 (num / den) in half_even num (den * u) * u

abbrev pub add : ℕ → ℕ → ℕ
add x y = nearest (x + y) 1

-- `Math.max(0, x - y)`
abbrev pub minus : ℕ → ℕ → ℕ
minus x y = nearest (x - y) 1

abbrev pub times : ℕ → ℕ → ℕ
times x y = nearest (x * y) one

-- `Math.round`
abbrev pub round : ℕ → ℕ
round x = (x + 604_462_909_807_314_587_353_088) / one

-- A decimal with two digits, given in hundredths: `Number(column)`, or `n / 100`.
abbrev pub hundredths : ℕ → ℕ
hundredths n = nearest (n * one) 100

unfoldable pub pow2 : ℕ → ℕ
pow2 zero = 1
pow2 (suc j) = 2 * pow2 j

pow2-positive : (j : ℕ) → 0 < pow2 j
unfolding pow2
pow2-positive zero = omega arith
pow2-positive (suc j) = omega (arith, pow2-positive j)

spacing_le : (j n q : ℕ) → q < 9_007_199_254_740_992 * pow2 j → spacing n q ≤ pow2 j
unfolding spacing pow2
spacing_le j zero q h = omega (arith, pow2-positive j)
spacing_le zero (suc n) q h =
    let small : ltb q 9_007_199_254_740_992 ≡ true = ground (arith, h) in
    rw (spacing, small) (omega arith)
spacing_le (suc j) (suc n) q h = elim (Bool-cases (ltb q 9_007_199_254_740_992)) [
  | inl small ↦ rw (spacing, small) (omega (arith, pow2-positive j))
  | inr large ↦ rw (spacing, large) (omega (arith, spacing_le j n (q / 2) (omega (arith, h))))
]

spacing_positive : (n q : ℕ) → 0 < spacing n q
unfolding spacing
spacing_positive zero q = omega arith
spacing_positive (suc n) q = elim (Bool-cases (ltb q 9_007_199_254_740_992)) [
  | inl small ↦ rw (spacing, small) (omega arith)
  | inr large ↦ rw (spacing, large) (omega (arith, spacing_positive n (q / 2)))
]

half_even-cases :
    (n d : ℕ)
    → ((half_even n d ≡ n / d) × (2 * (n % d) ≤ d))
      ⊎ ((half_even n d ≡ n / d + 1) × (d ≤ 2 * (n % d)))
unfolding half_even
half_even-cases n d = ground arith

half_even-close :
    (n d : ℕ)
    → 0 < d
    → (2 * (half_even n d * d) ≤ 2 * n + d) × (2 * n ≤ 2 * (half_even n d * d) + d)
half_even-close n d h = elim (half_even-cases n d) [
  | inl (down, below) ↦ rw down (
    omega (arith, below, div-add-mod n d, mul_comm d (n / d)),
    omega (arith, below, div-add-mod n d, mul_comm d (n / d)),
  )
  | inr (up, above) ↦ rw up (
    omega (arith, above, div-add-mod n d, mul_comm d (n / d), add-mul (n / d) 1 d),
    omega (arith, above, div-add-mod n d, mul_comm d (n / d), add-mul (n / d) 1 d),
  )
]

-- How close a nearest number is, where numbers are at most `pow2 j` apart.
pub nearest-close :
    (j num den : ℕ)
    → 0 < den
    → num / den < 9_007_199_254_740_992 * pow2 j
    → (2 * (den * nearest num den) ≤ 2 * num + den * pow2 j)
      × (2 * num ≤ 2 * (den * nearest num den) + den * pow2 j)
unfolding nearest
nearest-close j num den positive h =
    let u = spacing 128 (num / den) in
    let close =
      half_even-close num (den * u) (mul-pos positive (spacing_positive 128 (num / den))) in
    let apart : den * u ≤ den * pow2 j = mul-le-mul_left den (spacing_le j 128 (num / den) h) in
    let same = mul_left_comm den (half_even num (den * u)) u in
    (omega (arith, close.0, apart, same), omega (arith, close.1, apart, same))
