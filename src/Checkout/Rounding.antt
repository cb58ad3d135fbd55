-- ===== src/Checkout/Rounding.antt =====
-- How far the binary numbers of backend/src/services/checkout.service.ts are from exact paise.
use vedhicfoods.Prelude.{ℕ, ◌+◌, ◌-◌, ◌*◌, ◌<◌, ◌≤◌, ◌≡◌, arith}
use vedhicfoods.Prelude.Double.{one, add, minus, times, hundredths, pow2, nearest-close}
use vedhicfoods.Checkout.Pricing.{five_percent, tax_of, total_with}

-- Amounts below ten thousand million rupees, as the columns of the tables hold them.
abbrev pub max_paise : ℕ
max_paise = 1_000_000_000_000

pub hundredths-close :
    (n : ℕ)
    → n < max_paise
    → (200 * hundredths n ≤ 2 * (n * one) + 100 * 2_305_843_009_213_693_952)
      × (2 * (n * one) ≤ 200 * hundredths n + 100 * 2_305_843_009_213_693_952)
unfolding pow2
hundredths-close n h =
    let close = nearest-close 61 (n * one) 100 (omega arith) (omega (arith, h)) in
    (omega (arith, close.0), omega (arith, close.1))

-- The difference of two amounts, in units of the binary numbers.
taxable-close :
    (s d : ℕ)
    → d ≤ s
    → s < max_paise
    → (100 * minus (hundredths s) (hundredths d)
        ≤ (s - d) * one + 100 * (2 * 2_305_843_009_213_693_952))
      × ((s - d) * one
          ≤ 100 * minus (hundredths s) (hundredths d) + 100 * (2 * 2_305_843_009_213_693_952))
unfolding pow2
taxable-close s d le h =
    let a = hundredths-close s h in
    let b = hundredths-close d (omega (arith, le, h)) in
    let c =
      nearest-close 62 (hundredths s - hundredths d) 1 (omega arith) (omega (arith, a.0, h)) in
    (
      omega (arith, a.0, a.1, b.0, b.1, c.0, c.1, le),
      omega (arith, a.0, a.1, b.0, b.1, c.0, c.1, le),
    )

-- The tax is 5% of the taxable amount to the nearest paisa, and half a paisa may go either way.
pub tax_of-close :
    (s d : ℕ)
    → d ≤ s
    → s < max_paise
    → (100 * tax_of s d ≤ 5 * (s - d) + 50) × (5 * (s - d) ≤ 100 * tax_of s d + 50)
unfolding tax_of pow2
tax_of-close s d le h =
    let t = minus (hundredths s) (hundredths d) in
    let near = taxable-close s d le h in
    let p = times t five_percent in
    let part = nearest-close 57 (t * five_percent) one (omega arith) (omega (arith, near.0, h)) in
    let last = nearest-close 64 (100 * p) 1 (omega arith) (omega (arith, near.0, part.0, h)) in
    (omega (arith, near.0, part.0, last.0, le), omega (arith, near.1, part.1, last.1, le))

-- The total is exact.
pub total_with-exact :
    (s d shipping tax : ℕ)
    → d ≤ s
    → s < max_paise
    → shipping < max_paise
    → tax < max_paise
    → total_with s d shipping tax + d ≡ s + shipping + tax
unfolding total_with pow2
total_with-exact s d shipping tax le h h' h'' =
    let t = minus (hundredths s) (hundredths d) in
    let near = taxable-close s d le h in
    let a = hundredths-close shipping h' in
    let b = hundredths-close tax h'' in
    let x =
      nearest-close 64 (t + hundredths shipping) 1 (omega arith)
        (omega (arith, near.0, a.0, h, h')) in
    let y =
      nearest-close 64 (add t (hundredths shipping) + hundredths tax) 1 (omega arith)
        (omega (arith, near.0, a.0, b.0, x.0, h, h', h'')) in
    let z =
      nearest-close 71 (100 * add (add t (hundredths shipping)) (hundredths tax)) 1 (omega arith)
        (omega (arith, near.0, a.0, b.0, x.0, y.0, h, h', h'')) in
    omega (arith, near.0, near.1, a.0, a.1, b.0, b.1, x.0, x.1, y.0, y.1, z.0, z.1, le)
