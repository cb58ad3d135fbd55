-- ===== src/Staff/Ceiling.antt =====
-- What the checks of backend/src/utils/privilege.ts guarantee: authority is never reached sideways
-- or upwards, and never raised.
use Prim.Native.String.{String}
use vedhicfoods.Prelude.{
  ◌==◌, ℕ, ◌≤◌, ◌<◌, ◌≡◌, ◌≢◌, ◌⊎◌, inr, ◌↔◌, refl, true, Option, none, some, List, [], ◌∷◌, arith,
  All, if◌then◌else◌,
}
use vedhicfoods.Result.{ok}
use vedhicfoods.Staff.Privilege.{
  RoleName, owner, Actor, role_rank, same_role, actor_rank, is_owner,
  assert_can_manage_staff_account, assert_can_assign_permissions, check_slugs, holds,
}

-- An assigned role ranks below the actor's own, or an owner makes an owner.
abbrev pub IsBelow : Actor → Option RoleName → Type 0
IsBelow a none = Unit
IsBelow a (some r) =
    (role_rank r < actor_rank (some a)) ⊎ ((is_owner (some a) ≡ true) × (same_role r owner ≡ true))

-- The account is the actor's own, and keeps its role, or it ranks below the actor.
abbrev pub IsInReach : Actor → ℕ → RoleName → Option RoleName → Type 0
IsInReach a target_id target_role none =
    (a.id ≡ some target_id) ⊎ (role_rank target_role < actor_rank (some a))
IsInReach a target_id target_role (some r) =
    ((a.id ≡ some target_id) × (same_role r target_role ≡ true))
    ⊎ ((a.id ≢ some target_id) × (role_rank target_role < actor_rank (some a)))

-- `assertCanManageStaffAccount` accepts exactly when the actor is known, the role it assigns, if
-- any, ranks below its own or is OWNER assigned by an owner, and the account is its own with its
-- role unchanged or ranks below its own.
pub manage_iff :
    (a : Actor) (target_id : ℕ) (target_role : RoleName) (requested : Option RoleName)
    → (assert_can_manage_staff_account (some a) target_id target_role requested ≡ ok tt)
      ↔ ((a.id ≢ none) × IsBelow a requested × IsInReach a target_id target_role requested)
unfolding assert_can_manage_staff_account
manage_iff a target_id target_role none = ground arith
manage_iff a target_id target_role (some r) = ground arith

-- The accounts of the platform, each with one role.
abbrev pub Accounts : Type 0
Accounts = ℕ → RoleName

abbrev pub acting : Accounts → ℕ → Actor
acting roles i = record { id = some i; role = some (roles i); roles = [] }

abbrev pub assign : ℕ → RoleName → Accounts → Accounts
assign target r roles i = if i == target then r else roles i

-- One change of role that the check accepts, or any number of them in turn.
pub data Promotes (roles : Accounts) : Accounts → Type 0 where
  unchanged : Promotes roles roles
  promote :
      {before : Accounts} (actor target : ℕ) (r : RoleName)
      → Promotes roles before
      → assert_can_manage_staff_account (some (acting before actor)) target (before target) (some r)
        ≡ ok tt
      → Promotes roles (assign target r before)

-- One accepted change by an actor below OWNER gives nobody the rank of ADMIN or above.
promote_step :
    (roles : Accounts) (actor target i : ℕ) (r : RoleName)
    → role_rank (roles actor) ≤ 2
    → assert_can_manage_staff_account (some (acting roles actor)) target (roles target) (some r)
      ≡ ok tt
    → (role_rank (assign target r roles i) < 2)
      ⊎ (role_rank (assign target r roles i) ≤ role_rank (roles i))
unfolding assert_can_manage_staff_account
promote_step roles actor target i r low e = ground arith

-- Where no account is an owner, no sequence of accepted role changes, by whichever accounts, raises
-- an account to the rank of ADMIN or above that did not have that rank or more.
pub Promotes-no_escalation :
    {roles roles' : Accounts}
    → Promotes roles roles'
    → ((i : ℕ) → role_rank (roles i) ≤ 2)
    → (i : ℕ) → (role_rank (roles' i) < 2) ⊎ (role_rank (roles' i) ≤ role_rank (roles i))
Promotes-no_escalation unchanged low i = inr (omega arith)
Promotes-no_escalation (promote {before = before} actor target r earlier e) low i =
    let step =
      promote_step before actor target i r
        (omega (arith, Promotes-no_escalation earlier low actor, low actor)) e in
    omega (arith, step, Promotes-no_escalation earlier low i)

check_slugs_iff :
    (permissions slugs : List String)
    → (check_slugs permissions slugs ≡ ok tt) ↔ All (λ slug. holds permissions slug ≡ true) slugs
unfolding check_slugs
check_slugs_iff permissions [] = (λ _. tt, λ _. refl)
check_slugs_iff permissions (slug ∷ slugs) =
    let later = check_slugs_iff permissions slugs in unfold holds in ground (arith, later)

-- `assertCanAssignPermissions` accepts exactly when the actor is known and is not the target, and
-- either ranks as ADMIN or above or holds every permission that it hands out.
pub assign_permissions_iff :
    (a : Actor) (target_id : ℕ) (requested held : List String)
    → (assert_can_assign_permissions (some a) target_id requested held ≡ ok tt) ↔ (
        (a.id ≢ none)
        × (a.id ≢ some target_id)
        × ((2 ≤ actor_rank (some a)) ⊎ All (λ slug. holds held slug ≡ true) requested))
unfolding assert_can_assign_permissions
assign_permissions_iff a target_id requested held = ground (arith, check_slugs_iff held requested)
