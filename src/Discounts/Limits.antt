-- ===== src/Discounts/Limits.antt =====
-- The usage limits of coupons: recorded uses never exceed them.
use vedhicfoods.Prelude.{
  ℕ, ◌+◌, ◌≤◌, ◌<◌, ◌≡◌, refl, sym, ◌∙◌, ap, subst, true, ◌&&◌, lt→ltb, some, List, [], ◌∷◌, arith,
  ◌==◌, ==_iff, Bool-cases, Option-cases, inl, inr, if◌then◌else◌,
}
use vedhicfoods.Result.{Result, ok, err, Succeeds}
use vedhicfoods.Discounts.Coupon.{Coupon, CouponDb, CouponUsage, DiscountableItem}
use vedhicfoods.Discounts.Service.{
  Evaluation, find_coupon, find_by_code, update_coupon_row, usage_count, total_usages,
  record_coupon_usage, validate_and_calculate_coupon, is_under_user_limit,
}
use vedhicfoods.Discounts.Amounts.{IsInForce, validate-IsFair}

abbrev pub one_more : Coupon → Coupon
one_more c = record c { used_count = c.used_count + 1 }

find_coupon-one_more :
    (i j : ℕ) (cs : List Coupon) (c : Coupon)
    → find_coupon j (update_coupon_row i one_more cs) ≡ some c
    → (old : Coupon) × (find_coupon j cs ≡ some old) × (c ≡ (if i == j then one_more old else old))
unfolding find_coupon update_coupon_row
find_coupon-one_more i j [] c e = cc
find_coupon-one_more i j (x ∷ cs) c e = elim (Bool-cases (x.id == j)) [
  | inl hit ↦ (x, ground arith, ground arith)
  | inr miss ↦ elim (Bool-cases (x.id == i)) [
    | inl written ↦ (c, ground arith, ground arith)
    | inr other ↦
        let (old, found, changed) = find_coupon-one_more i j cs c (ground arith) in
        (old, ground arith, changed)
  ]
]

-- The counters agree with the recorded uses, and no limit is exceeded.
pub record IsWithinLimits (db : CouponDb) (id : ℕ) (c : Coupon) : Type 0 where
  pub counted : c.used_count ≡ total_usages id db.usages
  pub not_over : c.used_count ≤ c.max_uses
  pub user_not_over : (user : ℕ) → usage_count id user db.usages ≤ c.per_user_limit

abbrev pub IsLimited : CouponDb → Type 0
IsLimited db = (id : ℕ) (c : Coupon) → find_coupon id db.coupons ≡ some c → IsWithinLimits db id c

abbrev pub after : CouponDb → Result CouponDb → CouponDb
after db (ok db') = db'
after db (err e) = db

-- One use after the other, as the lock on the coupon's row orders them.
unfoldable pub record_all : List CouponUsage → CouponDb → CouponDb
record_all [] db = db
record_all (u ∷ us) db = record_all us (after db (record_coupon_usage u db))

-- What a recorded use needs, and what it writes.
record_cases :
    (u : CouponUsage) (db db' : CouponDb)
    → record_coupon_usage u db ≡ ok db'
    → (c : Coupon) × (find_coupon u.coupon db.coupons ≡ some c)
      × (c.used_count < c.max_uses)
      × (c.is_active ≡ true)
      × (usage_count u.coupon u.user db.usages < c.per_user_limit)
      × (db'.coupons ≡ update_coupon_row u.coupon one_more db.coupons)
      × (db'.usages ≡ u ∷ db.usages)
unfolding record_coupon_usage
record_cases u db db' e = elim (Option-cases (find_coupon u.coupon db.coupons)) [
  | inl missing ↦ absurd (cc (rw (missing, record_coupon_usage) at e))
  | inr (c, found) ↦
      let e' = rw (found, record_coupon_usage) at e in
      (c, found, ground arith, ground arith, ground arith, ground arith, ground arith)
]

-- One more use is counted for its coupon and its customer alone.
usage_count-cons :
    (id user : ℕ) (u : CouponUsage) (us : List CouponUsage)
    → usage_count id user (u ∷ us)
      ≡ (if u.coupon == id && u.user == user then 1 else 0) + usage_count id user us
unfolding usage_count
usage_count-cons id user u us = refl

total_usages-cons :
    (id : ℕ) (u : CouponUsage) (us : List CouponUsage)
    → total_usages id (u ∷ us) ≡ (if u.coupon == id then 1 else 0) + total_usages id us
unfolding total_usages
total_usages-cons id u us = refl

same_coupon :
    (i j : ℕ) (cs : List Coupon) (c c' : Coupon)
    → i ≡ j
    → find_coupon j cs ≡ some c
    → find_coupon i cs ≡ some c'
    → c ≡ c'
same_coupon i j cs c c' h e e' = cc (sym e, ap (λ k. find_coupon k cs) h, e')

pub record_coupon_usage-IsLimited :
    (u : CouponUsage) (db db' : CouponDb)
    → IsLimited db
    → record_coupon_usage u db ≡ ok db'
    → IsLimited db'
record_coupon_usage-IsLimited u db db' limited e id c' found' =
    let (c, found, room, active, user_room, coupons, usages) = record_cases u db db' e in
    let (old, before, changed) =
      find_coupon-one_more u.coupon id db.coupons c' (rw coupons at found') in
    let within = limited id old before in
    elim (Bool-cases (u.coupon == id)) [
      | inl same ↦
          let here : u.coupon ≡ id = (==_iff u.coupon id).0 same in
          let one : old ≡ c = same_coupon u.coupon id db.coupons old c here before found in
          let now : c' ≡ one_more c = ground arith in
          record {
            counted = ground (
              arith,
              within.counted,
              ap (total_usages id) usages,
              total_usages-cons id u db.usages,
            );
            not_over = ground arith;
            user_not_over = λ user. ground (
              arith,
              within.user_not_over user,
              ap (usage_count id user) usages,
              usage_count-cons id user u db.usages,
            );
          }
      | inr differ ↦
          let now : c' ≡ old = ground arith in
          record {
            counted = ground (
              arith,
              within.counted,
              ap (total_usages id) usages,
              total_usages-cons id u db.usages,
            );
            not_over = ground (arith, within.not_over);
            user_not_over = λ user. ground (
              arith,
              within.user_not_over user,
              ap (usage_count id user) usages,
              usage_count-cons id user u db.usages,
            );
          }
    ]

-- From tables in which every coupon's counter equals its recorded uses and is within its limit, and
-- no customer is over the limit of a coupon, any sequence of recorded uses, failed ones rolled back,
-- leads to such tables again.
pub record_all-IsLimited :
    (us : List CouponUsage) (db : CouponDb) → IsLimited db → IsLimited (record_all us db)
unfolding record_all
record_all-IsLimited [] db h = h
record_all-IsLimited (u ∷ us) db h =
    record_all-IsLimited us (after db (record_coupon_usage u db))
      (step (record_coupon_usage u db) refl)
  where
    step : (r : Result CouponDb) → record_coupon_usage u db ≡ r → IsLimited (after db r)
    step (ok db') e = record_coupon_usage-IsLimited u db db' h e
    step (err x) e = h

-- A use that was just evaluated for a customer can be recorded: a coupon that
-- `validateAndCalculateCoupon` accepts for the customer is accepted by `recordCouponUsage` on the same
-- tables, provided that its id finds the row that its code found.
pub validate-record_coupon_usage :
    (now code user : ℕ) (items : List DiscountableItem) (db : CouponDb) (e : Evaluation)
    (c : Coupon) (order discount : ℕ)
    → find_by_code code db.coupons ≡ some c
    → find_coupon c.id db.coupons ≡ some c
    → validate_and_calculate_coupon now code items (some user) db ≡ ok e
    → Succeeds (
        record_coupon_usage
          (record { coupon = e.coupon; user = user; order = order; discount_applied = discount })
          db)
unfolding record_coupon_usage is_under_user_limit
validate-record_coupon_usage now code user items db e c order discount by_code by_id h =
    let (c', found, in_force, summed, fair) = validate-IsFair now code items (some user) db e h in
    let one : c' ≡ c = cc in
    let here : e.coupon ≡ c.id = fair.same_coupon ∙ ap (λ (x : Coupon). x.id) one in
    let forced = subst (IsInForce now (some user) db) one in_force in
    rw (here, by_id)
      (rw
        (lt→ltb c.used_count c.max_uses forced.not_used_up, forced.active, forced.user_not_used_up)
        (_, refl))
