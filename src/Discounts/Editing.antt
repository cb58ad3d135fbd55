-- ===== src/Discounts/Editing.antt =====
-- What the administrator's changes of coupons keep true: a percentage is at most 100%, a validity
-- window is not empty, and a coupon that was used stays on record.
use vedhicfoods.Prelude.{
  ℕ, ◌+◌, ◌<◌, ◌≡◌, refl, subst, Bool, false, not, none, some, List, [], ◌∷◌, arith, lt→ltb, ◌==◌,
  Bool-cases, Option-cases, inl, inr, ◌⊎◌, All,
}
use vedhicfoods.Result.{Result, ok, err, bad_request, require, ◌>>◌}
use vedhicfoods.Discounts.Coupon.{Coupon, CouponDb, CouponUsage}
use vedhicfoods.Discounts.Service.{
  UpdateCouponInput, find_coupon, update_coupon_row, remove_coupon_row, total_usages, merged,
  exceeds_whole, ends_before_start, create_coupon, update_coupon, toggle_coupon_status,
  delete_coupon, record_coupon_usage,
}
use vedhicfoods.Discounts.Limits.{after}

-- The two `refine` conditions of the schemas.
abbrev pub IsWellFormed : Coupon → Type 0
IsWellFormed c =
    (exceeds_whole c.discount_type c.discount_value ≡ false)
    × (ends_before_start c.starts_at c.expires_at ≡ false)

-- `createCouponSchema` in front of `createCoupon`.
unfoldable pub parse_and_create : Coupon → CouponDb → Result CouponDb
parse_and_create c db = do
  require (not (exceeds_whole c.discount_type c.discount_value)) bad_request
  require (not (ends_before_start c.starts_at c.expires_at)) bad_request
  create_coupon c db

pub data CouponCall : Type 0 where
  creates : Coupon → CouponCall
  updates : ℕ → UpdateCouponInput → CouponCall
  toggles : ℕ → Bool → CouponCall
  deletes : ℕ → CouponCall
  uses : CouponUsage → CouponCall

unfoldable pub call : CouponCall → CouponDb → Result CouponDb
call (creates c) db = parse_and_create c db
call (updates id input) db = update_coupon id input db
call (toggles id active) db = toggle_coupon_status id active db
call (deletes id) db = delete_coupon id db
call (uses u) db = record_coupon_usage u db

unfoldable pub call_all : List CouponCall → CouponDb → CouponDb
call_all [] db = db
call_all (c ∷ cs) db = call_all cs (after db (call c db))

-- A change of one row that keeps it well formed.
update_row-All :
    (id : ℕ) (change : Coupon → Coupon) (cs : List Coupon)
    → ((c : Coupon) → find_coupon id cs ≡ some c → IsWellFormed c → IsWellFormed (change c))
    → All IsWellFormed cs
    → All IsWellFormed (update_coupon_row id change cs)
unfolding update_coupon_row find_coupon
update_row-All id change [] h a = tt
update_row-All id change (c ∷ cs) h a = elim (Bool-cases (c.id == id)) [
  | inl hit ↦ rw hit (h c (rw hit) a.0, a.1)
  | inr miss ↦ rw miss (a.0, update_row-All id change cs (λ x e. h x (rw miss e)) a.1)
]

remove_row-All :
    (id : ℕ) (cs : List Coupon) → All IsWellFormed cs → All IsWellFormed (remove_coupon_row id cs)
unfolding remove_coupon_row
remove_row-All id [] a = tt
remove_row-All id (c ∷ cs) a = elim (Bool-cases (c.id == id)) [
  | inl hit ↦ rw hit a.1
  | inr miss ↦ rw miss (a.0, remove_row-All id cs a.1)
]

update_coupon-cases :
    (id : ℕ) (input : UpdateCouponInput) (db db' : CouponDb)
    → update_coupon id input db ≡ ok db'
    → (c : Coupon) × (find_coupon id db.coupons ≡ some c)
      × IsWellFormed (merged input c)
      × (db'.coupons ≡ update_coupon_row id (merged input) db.coupons)
update_coupon-cases id input db db' e = elim (Option-cases (find_coupon id db.coupons)) [
  | inl missing ↦ absurd (missing_refused missing)
  | inr (c, found) ↦ (c, found, (checks c found).0, (checks c found).1)
]
  where
    missing_refused : find_coupon id db.coupons ≡ none → ⊥
    missing_refused missing = unfold update_coupon in cc (rw (missing, update_coupon) at e)

    checks :
        (c : Coupon)
        → find_coupon id db.coupons ≡ some c
        → IsWellFormed (merged input c)
          × (db'.coupons ≡ update_coupon_row id (merged input) db.coupons)
    checks c found =
        unfold update_coupon in
        (let e' = rw (found, update_coupon) at e in ((ground arith, ground arith), ground arith))

create_coupon-coupons :
    (c : Coupon) (db db' : CouponDb)
    → create_coupon c db ≡ ok db'
    → db'.coupons ≡ record c { used_count = 0 } ∷ db.coupons
unfolding create_coupon
create_coupon-coupons c db db' e = ground arith

parse_and_create-cases :
    (c : Coupon) (db db' : CouponDb)
    → parse_and_create c db ≡ ok db'
    → IsWellFormed c × (create_coupon c db ≡ ok db')
unfolding parse_and_create
parse_and_create-cases c db db' e = ((ground arith, ground arith), ground arith)

-- The other changes, when they succeed.
toggle-coupons :
    (id : ℕ) (active : Bool) (db db' : CouponDb)
    → toggle_coupon_status id active db ≡ ok db'
    → db'.coupons ≡ update_coupon_row id (λ x. record x { is_active = active }) db.coupons
unfolding toggle_coupon_status
toggle-coupons id active db db' e = ground arith

delete-coupons :
    (id : ℕ) (db db' : CouponDb)
    → delete_coupon id db ≡ ok db'
    → ((0 < total_usages id db.usages)
        × (db'.coupons ≡ update_coupon_row id (λ x. record x { is_active = false }) db.coupons)
        × (db'.usages ≡ db.usages))
      ⊎ (db'.coupons ≡ remove_coupon_row id db.coupons)
unfolding delete_coupon
delete-coupons id db db' e = ground arith

record-coupons :
    (u : CouponUsage) (db db' : CouponDb)
    → record_coupon_usage u db ≡ ok db'
    → db'.coupons
      ≡ update_coupon_row u.coupon (λ x. record x { used_count = x.used_count + 1 }) db.coupons
unfolding record_coupon_usage
record-coupons u db db' e = ground arith

call-IsWellFormed :
    (c : CouponCall) (db db' : CouponDb)
    → call c db ≡ ok db'
    → All IsWellFormed db.coupons
    → All IsWellFormed db'.coupons
unfolding call
call-IsWellFormed (creates c) db db' e a =
    let (fine, created) = parse_and_create-cases c db db' e in
    rw (create_coupon-coupons c db db' created) (fine, a)
call-IsWellFormed (updates id input) db db' e a =
    let (c, found, fine, written) = update_coupon-cases id input db db' e in
    rw written (
      update_row-All id (merged input) db.coupons
        (λ x found' _. let one : c ≡ x = cc in subst (λ y. IsWellFormed (merged input y)) one fine)
        a)
call-IsWellFormed (toggles id active) db db' e a =
    rw (toggle-coupons id active db db' e) (update_row-All id _ db.coupons (λ x _ h. h) a)
call-IsWellFormed (deletes id) db db' e a = elim (delete-coupons id db db' e) [
  | inl (_, written, _) ↦ rw written (update_row-All id _ db.coupons (λ x _ h. h) a)
  | inr removed ↦ rw removed (remove_row-All id db.coupons a)
]
call-IsWellFormed (uses u) db db' e a =
    rw (record-coupons u db db' e) (update_row-All u.coupon _ db.coupons (λ x _ h. h) a)

-- Through any sequence of created, changed, switched, deleted and used coupons, failed calls rolled
-- back, no percentage exceeds 100% and no validity window ends before it starts; a partial change is
-- checked against the stored row.
pub call_all-IsWellFormed :
    (cs : List CouponCall) (db : CouponDb)
    → All IsWellFormed db.coupons
    → All IsWellFormed (call_all cs db).coupons
unfolding call_all
call_all-IsWellFormed [] db a = a
call_all-IsWellFormed (c ∷ cs) db a =
    call_all-IsWellFormed cs (after db (call c db)) (step (call c db) refl)
  where
    step : (r : Result CouponDb) → call c db ≡ r → All IsWellFormed (after db r).coupons
    step (ok db') e = call-IsWellFormed c db db' e a
    step (err x) e = a

find-switched_off :
    (id : ℕ) (cs : List Coupon) (c : Coupon)
    → find_coupon id cs ≡ some c
    → find_coupon id (update_coupon_row id (λ x. record x { is_active = false }) cs)
      ≡ some (record c { is_active = false })
unfolding find_coupon update_coupon_row
find-switched_off id [] c e = cc
find-switched_off id (x ∷ cs) c e = ground (arith, find-switched_off id cs c)

-- Deleting a coupon that was used keeps its row, switched off, and every recorded use.
pub delete_coupon-used :
    (id : ℕ) (db : CouponDb) (c : Coupon)
    → find_coupon id db.coupons ≡ some c
    → 0 < total_usages id db.usages
    → (db' : CouponDb) × (delete_coupon id db ≡ ok db')
      × (find_coupon id db'.coupons ≡ some (record c { is_active = false }))
      × (db'.usages ≡ db.usages)
unfolding delete_coupon
delete_coupon-used id db c found used = (
  record db { coupons = update_coupon_row id (λ x. record x { is_active = false }) db.coupons },
  rw found (rw (lt→ltb 0 _ used)),
  find-switched_off id db.coupons c found,
  refl,
)
