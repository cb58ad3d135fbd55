-- ===== src/Sessions/Tests.antt =====
-- A session of a customer whose refresh token is presented twice.
use vedhicfoods.Prelude.{ℕ, ◌+◌, ◌≡◌, refl, true, false, none, [], ◌∷◌, arith}
use vedhicfoods.Result.{ok, err, unauthorized}
use vedhicfoods.Staff.Privilege.{RoleName}
use vedhicfoods.Sessions.Tokens.{
  rotate, rotate_in_transaction, refresh_token_expiry_for, is_open_id, create_token, revoke_of_user,
  RefreshToken, Vault, Account, find_token, refresh_access_token, logout_all,
}
use vedhicfoods.Sessions.Reuse.{IsTheft, refresh-refresh}

-- In place of the hash, a shift.
abbrev hash : ℕ → ℕ
hash raw = raw + 1_000

abbrev token : RefreshToken
token = record {
  id = 1;
  user = 50;
  hash = 1_007;
  expires_at = 900_000;
  is_revoked = false;
  replaced_by = none;
}

abbrev account : Account
account = record { role = RoleName.customer; is_active = true; is_deleted = false }

abbrev vault : Vault
vault = record { tokens = token ∷ []; accounts = λ user. account; next_id = 2; audits = [] }

-- Another user signs out meanwhile.
abbrev others : Vault → Vault
others v = logout_all 60 v

abbrev refreshed : Vault
refreshed = (refresh_access_token hash others 5_000 8 7 vault).1

-- The new token works once more.
new_token_works : (refresh_access_token hash (λ v. v) 6_000 9 8 refreshed).0 ≡ ok 9
unfolding create_token find_token is_open_id logout_all refresh_access_token
    refresh_token_expiry_for revoke_of_user rotate rotate_in_transaction
new_token_works = refl

-- An expired token is refused.
expired : (refresh_access_token hash (λ v. v) 900_001 9 7 vault).0 ≡ err unauthorized
unfolding create_token find_token is_open_id logout_all refresh_access_token
    refresh_token_expiry_for revoke_of_user rotate rotate_in_transaction
expired = refl

refresh-refresh_example :
    IsTheft 50 (refresh_access_token hash (λ v. v) 6_000 9 7 refreshed)
    × ((refresh_access_token hash (λ v. refreshed) 6_000 9 7 vault).0 ≡ err unauthorized)
unfolding create_token find_token is_open_id logout_all refresh_access_token
    refresh_token_expiry_for revoke_of_user rotate rotate_in_transaction
refresh-refresh_example =
    refresh-refresh hash others (λ v. v) 5_000 6_000 8 9 7 8 vault refreshed token refl refl
      (λ e. omega (arith, e)) (λ e. omega (arith, e)) refl
