-- ===== src/Staff/Privilege.antt =====
-- backend/src/utils/privilege.ts. User ids are only compared: they are numbers.
use Prim.Native.String.{String}
use text.Mathlib.Text.{◌==◌ as str_eq}
use vedhicfoods.Prelude.{
  ℕ, Bool, false, ◌&&◌, ◌||◌, not, Option, none, some, List, [], ◌∷◌, any_by, leb, ltb, ◌==◌,
  if◌then◌else◌,
}
use vedhicfoods.Result.{Result, ok, err, forbidden, require, ◌>>=◌, ◌>>◌}

pub data RoleName : Type 0 where
  owner admin staff customer : RoleName

-- `ROLE_RANK`
unfoldable pub role_rank : RoleName → ℕ
role_rank owner = 3
role_rank admin = 2
role_rank staff = 1
role_rank customer = 0

-- `role === other`: the ranks tell the roles apart.
unfoldable pub same_role : RoleName → RoleName → Bool
unfolding role_rank
same_role r s = role_rank r == role_rank s

-- `ActorLike`; a missing list of roles is the empty one.
pub record Actor : Type 0 where
  pub id : Option ℕ
  pub role : Option RoleName
  pub roles : List RoleName

-- `roleRank` of an optional role
unfoldable pub optional_rank : Option RoleName → ℕ
unfolding role_rank
optional_rank none = 0
optional_rank (some r) = role_rank r

-- `ranks.reduce((max, rank) => (rank > max ? rank : max), max)`
unfoldable pub highest : ℕ → List RoleName → ℕ
unfolding role_rank
highest max [] = max
highest max (r ∷ rs) = highest (if ltb max (role_rank r) then role_rank r else max) rs

-- The reduction starts at 0 and takes the primary role first.
unfoldable pub actor_rank : Option Actor → ℕ
unfolding highest optional_rank
actor_rank none = 0
actor_rank (some a) =
    highest (if ltb 0 (optional_rank a.role) then optional_rank a.role else 0) a.roles

unfoldable pub is_owner : Option Actor → Bool
unfolding same_role
is_owner none = false
is_owner (some a) =
    elim a.role [ none ↦ false | some r ↦ same_role r owner ] || any_by (same_role owner) a.roles

-- `requestedRole && test(requestedRole)`
abbrev pub requests : Option RoleName → (RoleName → Bool) → Bool
requests none test = false
requests (some r) test = test r

-- `Authentication required.`
unfoldable pub actor_id : Option Actor → Result ℕ
actor_id none = err forbidden
actor_id (some a) = elim a.id [ none ↦ err forbidden | some i ↦ ok i ]

-- `assertCanManageStaffAccount`; the name of the action only shows in messages.
unfoldable pub assert_can_manage_staff_account :
    Option Actor → ℕ → RoleName → Option RoleName → Result (Unit {0})
unfolding actor_id actor_rank is_owner same_role
assert_can_manage_staff_account actor target_id target_role requested_role = do
  id ← actor_id actor
  let rank = actor_rank actor
  let target_rank = role_rank target_role
  let owner_granting_owner = is_owner actor && requests requested_role (λ r. same_role r owner)
  let grants_too_high = requests requested_role (λ r. leb rank (role_rank r))
  require (not (grants_too_high && not owner_granting_owner)) forbidden
  let is_self = id == target_id
  require (not (not is_self && leb rank target_rank)) forbidden
  require (not (is_self && requests requested_role (λ r. not (same_role r target_role)))) forbidden

-- `grantorPermissions.includes(slug)`
unfoldable pub holds : List String → String → Bool
holds permissions slug = any_by (str_eq slug) permissions

-- `for (const slug of requestedSlugs) …`
unfoldable pub check_slugs : List String → List String → Result (Unit {0})
unfolding holds
check_slugs permissions [] = ok tt
check_slugs permissions (slug ∷ slugs) =
    require (holds permissions slug) forbidden >> check_slugs permissions slugs

unfoldable pub assert_can_assign_permissions :
    Option Actor → ℕ → List String → List String → Result (Unit {0})
unfolding actor_id actor_rank check_slugs
assert_can_assign_permissions actor target_id requested_slugs grantor_permissions = do
  id ← actor_id actor
  require (not (id == target_id)) forbidden
  if leb (role_rank admin) (actor_rank actor)
      then ok tt
      else check_slugs grantor_permissions requested_slugs
