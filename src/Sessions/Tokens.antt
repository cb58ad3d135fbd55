-- ===== src/Sessions/Tokens.antt =====
-- backend/src/services/auth.service.ts: `generateRefreshToken`, `refreshAccessToken`, `logout` and
-- `logoutAll`. Times are milliseconds. `hash_token` is SHA-256, and `fresh` the random bytes of a call;
-- `others` is what other requests commit between the read of a token and the transaction that rotates
-- it. The access token, which is signed and not stored, is left out.
use vedhicfoods.Prelude.{
  ℕ, ◌+◌, ◌*◌, Bool, true, false, ◌&&◌, ◌||◌, not, Option, none, some, List, [], ◌∷◌, map, any_by,
  ltb, ◌==◌, if◌then◌else◌,
}
use vedhicfoods.Result.{Result, ok, err, unauthorized}
use vedhicfoods.Staff.Privilege.{RoleName}

pub record RefreshToken : Type 0 where
  pub id : ℕ
  pub user : ℕ
  pub hash : ℕ
  pub expires_at : ℕ
  pub is_revoked : Bool
  pub replaced_by : Option ℕ

pub record Account : Type 0 where
  pub role : RoleName
  pub is_active : Bool
  pub is_deleted : Bool

pub data SessionAudit : Type 0 where
  reuse_detected logged_out logged_out_everywhere : ℕ → SessionAudit

-- `next_id` is the id that the database gives to the next token.
pub record Vault : Type 0 where
  pub tokens : List RefreshToken
  pub accounts : ℕ → Account
  pub next_id : ℕ
  pub audits : List SessionAudit

abbrev pub hour : ℕ
hour = 3_600_000

abbrev pub is_console_role : RoleName → Bool
is_console_role RoleName.customer = false
is_console_role _ = true

-- `refreshTokenExpiryFor`
unfoldable pub refresh_token_expiry_for : RoleName → ℕ → ℕ
refresh_token_expiry_for role now =
    if is_console_role role then now + 24 * hour else now + 7 * 24 * hour

-- `refreshToken.findUnique({ where: { tokenHash } })`
unfoldable pub find_token : ℕ → List RefreshToken → Option RefreshToken
find_token hash [] = none
find_token hash (t ∷ ts) = if t.hash == hash then some t else find_token hash ts

abbrev pub revoked : RefreshToken → RefreshToken
revoked t = record t { is_revoked = true }

unfoldable pub revoke_by_id : ℕ → RefreshToken → RefreshToken
revoke_by_id id t = if t.id == id then revoked t else t

-- `updateMany({ where: { userId, isRevoked: false }, data: { isRevoked: true } })`
unfoldable pub revoke_of_user : ℕ → RefreshToken → RefreshToken
revoke_of_user user t = if t.user == user then revoked t else t

unfoldable pub is_open_id : ℕ → RefreshToken → Bool
is_open_id id t = t.id == id && not t.is_revoked

unfoldable pub replace_by : ℕ → ℕ → RefreshToken → RefreshToken
replace_by id hash t =
    if is_open_id id t then record t { is_revoked = true; replaced_by = some hash } else t

unfoldable pub create_token : ℕ → RoleName → ℕ → ℕ → Vault → Vault
create_token user role hash now v = record v {
  tokens =
      record {
        id = v.next_id;
        user = user;
        hash = hash;
        expires_at = refresh_token_expiry_for role now;
        is_revoked = false;
        replaced_by = none;
      }
      ∷ v.tokens;
  next_id = v.next_id + 1;
}

-- `generateRefreshToken`
unfoldable pub generate_refresh_token : (ℕ → ℕ) → ℕ → RoleName → ℕ → ℕ → Vault → ℕ × Vault
generate_refresh_token hash_token user role fresh now v =
    (fresh, create_token user role (hash_token fresh) now v)

abbrev pub Answer : Type 0
Answer = Result ℕ × Vault

-- `rejectRefreshTokenReuse`
unfoldable pub reject_refresh_token_reuse : RefreshToken → Vault → Answer
reject_refresh_token_reuse t v = (
  err unauthorized,
  record v {
    tokens = map (revoke_of_user t.user) v.tokens;
    audits = reuse_detected t.id ∷ v.audits;
  },
)

-- The transaction: the token is claimed only while it is not revoked.
unfoldable pub rotate_in_transaction : ℕ → ℕ → RoleName → ℕ → RefreshToken → Vault → Answer
rotate_in_transaction fresh hash role now t v =
    if any_by (is_open_id t.id) v.tokens
    then (
      ok fresh,
      create_token t.user role hash now (record v { tokens = map (replace_by t.id hash) v.tokens }),
    )
    else reject_refresh_token_reuse t v

unfoldable pub rotate : (ℕ → ℕ) → (Vault → Vault) → ℕ → ℕ → RefreshToken → Vault → Answer
rotate hash_token others now fresh t v =
    if t.is_revoked
    then reject_refresh_token_reuse t v
    else if ltb t.expires_at now
    then (err unauthorized, record v { tokens = map (revoke_by_id t.id) v.tokens })
    else if not (v.accounts t.user).is_active || (v.accounts t.user).is_deleted
    then (err unauthorized, v)
    else rotate_in_transaction fresh (hash_token fresh) (v.accounts t.user).role now t (others v)

unfoldable pub refresh_access_token : (ℕ → ℕ) → (Vault → Vault) → ℕ → ℕ → ℕ → Vault → Answer
refresh_access_token hash_token others now fresh raw v =
    elim (find_token (hash_token raw) v.tokens) [
      | none ↦ (err unauthorized, v)
      | some t ↦ rotate hash_token others now fresh t v
    ]

unfoldable pub logout : (ℕ → ℕ) → ℕ → Vault → Vault
logout hash_token raw v = elim (find_token (hash_token raw) v.tokens) [
  | none ↦ v
  | some t ↦ if t.is_revoked then v else record v {
    tokens = map (revoke_by_id t.id) v.tokens;
    audits = logged_out t.id ∷ v.audits;
  }
]

unfoldable pub logout_all : ℕ → Vault → Vault
logout_all user v = record v {
  tokens = map (revoke_of_user user) v.tokens;
  audits = logged_out_everywhere user ∷ v.audits;
}
