-- ===== src/Payments/Paise.antt =====
-- How the amounts of backend/src/integrations/razorpay/razorpay.service.ts are rounded to paise.
use vedhicfoods.Prelude.{ℕ, ◌+◌, ◌*◌, ◌<◌, ◌≤◌, ◌≡◌, arith}
use vedhicfoods.Prelude.Double.{add, hundredths, pow2, nearest-close}
use vedhicfoods.Checkout.Rounding.{max_paise, hundredths-close}
use vedhicfoods.Payments.Refunds.{tolerance, paise_of}

-- A recorded amount goes to rupees and back.
pub paise_of-hundredths : (n : ℕ) → n < max_paise → paise_of (hundredths n) ≡ n
unfolding paise_of pow2
paise_of-hundredths n h =
    let a = hundredths-close n h in
    let b = nearest-close 70 (100 * hundredths n) 1 (omega arith) (omega (arith, a.0, h)) in
    omega (arith, a.0, a.1, b.0, b.1)

-- The tolerance is lost in the rounding.
pub paise_of-le :
    (asked n : ℕ) → n < max_paise → asked ≤ add (hundredths n) tolerance → paise_of asked ≤ n
unfolding paise_of pow2
paise_of-le asked n h le =
    let a = hundredths-close n h in
    let s = nearest-close 64 (hundredths n + tolerance) 1 (omega arith) (omega (arith, a.0, h)) in
    let b = nearest-close 70 (100 * asked) 1 (omega arith) (omega (arith, a.0, s.0, le, h)) in
    omega (arith, a.0, s.0, b.0, le)
