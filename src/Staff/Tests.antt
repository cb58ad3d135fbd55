-- ===== src/Staff/Tests.antt =====
-- The checks on staff accounts at a small company, and their theorems there.
use vedhicfoods.Prelude.{ℕ, zero, suc, ◌≤◌, ◌<◌, ◌≡◌, ◌⊎◌, refl, some, [], ◌∷◌, arith}
use vedhicfoods.Result.{ok, err, forbidden}
use vedhicfoods.Staff.Privilege.{
  owner, admin, staff, customer, Actor, role_rank, assert_can_manage_staff_account,
}
use vedhicfoods.Staff.Ceiling.{
  Accounts, assign, Promotes, unchanged, promote, Promotes-no_escalation,
}

abbrev manager : Actor
manager = record { id = some 4; role = some admin; roles = [] }

abbrev helper : Actor
helper = record { id = some 5; role = some customer; roles = staff ∷ [] }

admin_makes_admin :
    assert_can_manage_staff_account (some manager) 5 staff (some admin) ≡ err forbidden
unfolding assert_can_manage_staff_account
admin_makes_admin = refl

owner_makes_owner :
    assert_can_manage_staff_account
      (some (record manager { role = some owner }))
      5
      staff
      (some owner)
    ≡ ok tt
unfolding assert_can_manage_staff_account
owner_makes_owner = refl

-- Account 0 is the administrator.
abbrev company : Accounts
company zero = admin
company (suc i) = customer

hired : Promotes company (assign 1 staff company)
unfolding assert_can_manage_staff_account
hired = promote 0 1 staff unchanged refl

company_without_owner : (i : ℕ) → role_rank (company i) ≤ 2
unfolding role_rank
company_without_owner zero = omega arith
company_without_owner (suc i) = omega arith

Promotes-no_escalation_example :
    (role_rank (assign 1 staff company 1) < 2)
    ⊎ (role_rank (assign 1 staff company 1) ≤ role_rank (company 1))
Promotes-no_escalation_example = Promotes-no_escalation hired company_without_owner 1
