-- ===== src/Addresses/Book.antt =====
-- backend/src/services/address.service.ts: the operations that change addresses, as far as ownership,
-- deletion and the default go; the text of an address is left out.
use vedhicfoods.Prelude.{
  ℕ, Bool, true, false, ◌&&◌, ◌||◌, not, Option, none, some, List, [], ◌∷◌, map, any_by, leb, ◌==◌,
  if◌then◌else◌,
}
use vedhicfoods.Result.{Result, ok, err, not_found, forbidden, ◌>>=◌}

pub record AddressRow : Type 0 where
  pub id : ℕ
  pub user : ℕ
  pub is_default : Bool
  pub is_deleted : Bool
  pub created_at : ℕ

unfoldable pub is_active_of : ℕ → AddressRow → Bool
is_active_of user r = r.user == user && not r.is_deleted

abbrev pub with_default : Bool → AddressRow → AddressRow
with_default b r = record r { is_default = b }

-- `updateMany` over the active addresses of a customer.
unfoldable pub demote : ℕ → AddressRow → AddressRow
demote user r = if is_active_of user r then with_default false r else r

unfoldable pub demote_others : ℕ → ℕ → AddressRow → AddressRow
demote_others user id r =
    if is_active_of user r && not (r.id == id) then with_default false r else r

-- A write by id.
unfoldable pub write_address : ℕ → (AddressRow → AddressRow) → AddressRow → AddressRow
write_address id change r = if r.id == id then change r else r

-- `createAddress`, on parsed input: the first address of a customer is the default.
unfoldable pub create_address : ℕ → ℕ → ℕ → Bool → List AddressRow → List AddressRow
create_address id now user wants rows =
    let has_others = any_by (is_active_of user) rows in
    record {
      id = id;
      user = user;
      is_default = not has_others || wants;
      is_deleted = false;
      created_at = now;
    }
    ∷ (if has_others && wants then map (demote user) rows else rows)

unfoldable pub find_address : ℕ → List AddressRow → Option AddressRow
find_address id [] = none
find_address id (r ∷ rs) = if r.id == id then some r else find_address id rs

-- The checks that the four operations on one address begin with.
unfoldable pub own_address : ℕ → ℕ → Bool → List AddressRow → Result AddressRow
own_address user id is_admin rows = elim (find_address id rows) [
  | none ↦ err not_found
  | some r ↦
      if r.is_deleted
      then err not_found
      else if not (r.user == user) && not is_admin
      then err forbidden
      else ok r
]

-- `updateAddress`, on parsed input.
unfoldable pub write_update : AddressRow → Option Bool → List AddressRow → List AddressRow
write_update existing none rows = rows
write_update existing (some false) rows = map (write_address existing.id (with_default false)) rows
write_update existing (some true) rows =
    map (write_address existing.id (with_default true))
      (map (demote_others existing.user existing.id) rows)

unfoldable pub update_address :
    ℕ → ℕ → Bool → Option Bool → List AddressRow → Result (List AddressRow)
update_address user id is_admin wants rows =
    own_address user id is_admin rows >>= λ existing. ok (write_update existing wants rows)

-- `findFirst` ordered by `createdAt`, the newest first.
unfoldable pub newer : AddressRow → Option AddressRow → AddressRow
newer r none = r
newer r (some x) = if leb x.created_at r.created_at then r else x

unfoldable pub newest_other : ℕ → ℕ → List AddressRow → Option AddressRow
newest_other user id [] = none
newest_other user id (r ∷ rs) =
    let rest = newest_other user id rs in
    if is_active_of user r && not (r.id == id) then some (newer r rest) else rest

abbrev pub deleted : AddressRow → AddressRow
deleted r = record r { is_deleted = true; is_default = false }

unfoldable pub promote : Option AddressRow → List AddressRow → List AddressRow
promote none rows = rows
promote (some r) rows = map (write_address r.id (with_default true)) rows

-- `deleteAddress`: the newest remaining address takes the place of a default.
unfoldable pub write_deletion : AddressRow → List AddressRow → List AddressRow
write_deletion existing rows =
    let rows' = map (write_address existing.id deleted) rows in
    if existing.is_default
    then promote (newest_other existing.user existing.id rows') rows'
    else rows'

unfoldable pub delete_address : ℕ → ℕ → Bool → List AddressRow → Result (List AddressRow)
delete_address user id is_admin rows =
    own_address user id is_admin rows >>= λ existing. ok (write_deletion existing rows)

-- `setDefaultAddress`
unfoldable pub write_default : AddressRow → List AddressRow → List AddressRow
write_default existing rows =
    map (write_address existing.id (with_default true)) (map (demote existing.user) rows)

unfoldable pub set_default_address : ℕ → ℕ → Bool → List AddressRow → Result (List AddressRow)
set_default_address user id is_admin rows =
    own_address user id is_admin rows >>= λ existing. ok (write_default existing rows)
