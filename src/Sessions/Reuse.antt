-- ===== src/Sessions/Reuse.antt =====
-- A refresh token of backend/src/services/auth.service.ts is exchanged once.
use vedhicfoods.Prelude.{
  ℕ, ◌≡◌, ◌≢◌, inl, inr, refl, ap, ◌∙◌, true, false, some, List, [], ◌∷◌, map, any_by, arith, All,
  Bool-cases, ◌==◌, subst,
}
use vedhicfoods.Result.{ok, err, unauthorized}
use vedhicfoods.Staff.Privilege.{RoleName}
use vedhicfoods.Sessions.Tokens.{
  RefreshToken, Vault, find_token, is_open_id, replace_by, revoke_of_user, create_token,
  reject_refresh_token_reuse, rotate_in_transaction, rotate, refresh_access_token, Answer,
}

-- No session of the user is open.
abbrev pub AreShut : ℕ → List RefreshToken → Type 0
AreShut user = All λ (t : RefreshToken). t.user ≡ user → t.is_revoked ≡ true

revoke_of_user-AreShut :
    (user : ℕ) (ts : List RefreshToken) → AreShut user (map (revoke_of_user user) ts)
unfolding revoke_of_user
revoke_of_user-AreShut user [] = tt
revoke_of_user-AreShut user (t ∷ ts) = elim (Bool-cases (t.user == user)) [
  | inl own ↦ ((rw (revoke_of_user, own) λ e. refl), revoke_of_user-AreShut user ts)
  | inr other ↦ (
    (rw (revoke_of_user, other) λ e. absurd (ground (arith, e, other))),
    revoke_of_user-AreShut user ts,
  )
]

replace_by-keeps :
    (id new : ℕ) (t : RefreshToken)
    → ((replace_by id new t).hash ≡ t.hash)
      × ((replace_by id new t).user ≡ t.user)
      × (t.id ≡ id → (replace_by id new t).is_revoked ≡ true)
unfolding replace_by is_open_id
replace_by-keeps id new t = elim (Bool-cases (is_open_id id t)) [
  | inl open_now ↦ (
    rw (replace_by, open_now) refl,
    rw (replace_by, open_now) refl,
    rw (replace_by, open_now) λ e. refl,
  )
  | inr shut ↦ (
    rw (replace_by, shut) refl,
    rw (replace_by, shut) refl,
    rw (replace_by, shut) λ e. ground (arith, e, shut),
  )
]

-- A row that was replaced is found revoked.
find_token-replace_by :
    (hash id new : ℕ) (ts : List RefreshToken) (t : RefreshToken)
    → find_token hash ts ≡ some t
    → t.id ≡ id
    → (u : RefreshToken) × (find_token hash (map (replace_by id new) ts) ≡ some u)
      × (u.user ≡ t.user)
      × (u.is_revoked ≡ true)
unfolding find_token
find_token-replace_by hash id new [] t e own = cc
find_token-replace_by hash id new (x ∷ ts) t e own =
    let (same, user, shut) = replace_by-keeps id new x in
    let still : ((replace_by id new x).hash == hash) ≡ (x.hash == hash) =
      ap (λ h. h == hash) same in
    elim (Bool-cases (x.hash == hash)) [
      | inl hit ↦
          let mine : x ≡ t = ground (arith, rw (find_token, hit) at e) in
          (
            replace_by id new x,
            rw (find_token, still ∙ hit) refl,
            user ∙ ap (λ y. y.user) mine,
            shut (ap (λ y. y.id) mine ∙ own),
          )
      | inr miss ↦
          let (u, found, same_user, closed) =
            find_token-replace_by hash id new ts t (rw (find_token, miss) at e) own in
          (u, rw (find_token, still ∙ miss) found, same_user, closed)
    ]

-- A refused exchange that was taken for theft.
abbrev pub IsTheft : ℕ → Answer → Type 0
IsTheft user a = (a.0 ≡ err unauthorized) × AreShut user a.1.tokens

reject-IsTheft : (t : RefreshToken) (v : Vault) → IsTheft t.user (reject_refresh_token_reuse t v)
unfolding reject_refresh_token_reuse
reject-IsTheft t v = (refl, revoke_of_user-AreShut t.user v.tokens)

-- A revoked token that is presented shuts every session of its user.
refresh-revoked :
    (hash_token : ℕ → ℕ) (others : Vault → Vault) (now fresh raw : ℕ) (v : Vault) (t : RefreshToken)
    → find_token (hash_token raw) v.tokens ≡ some t
    → t.is_revoked ≡ true
    → IsTheft t.user (refresh_access_token hash_token others now fresh raw v)
unfolding refresh_access_token rotate reject_refresh_token_reuse
refresh-revoked hash_token others now fresh raw v t found shut =
    rw (refresh_access_token, found, rotate, shut) (reject-IsTheft t v)

-- What an exchange that ends well has done.
rotate-ok :
    (hash_token : ℕ → ℕ) (others : Vault → Vault) (now fresh given : ℕ) (t : RefreshToken)
    (v v' : Vault)
    → rotate hash_token others now fresh t v ≡ (ok given, v')
    → (any_by (is_open_id t.id) (others v).tokens ≡ true)
      × (v'
          ≡ create_token t.user (v.accounts t.user).role (hash_token fresh) now (record (others v) {
            tokens = map (replace_by t.id (hash_token fresh)) (others v).tokens;
          }))
unfolding rotate rotate_in_transaction reject_refresh_token_reuse
rotate-ok hash_token others now fresh given t v v' e = ground arith

replaced_shut_row : (id new : ℕ) (t : RefreshToken) → is_open_id id (replace_by id new t) ≡ false
unfolding replace_by is_open_id
replaced_shut_row id new t = elim (Bool-cases (is_open_id id t)) [
  | inl open_now ↦ rw (replace_by, open_now) (ground arith)
  | inr shut ↦ rw (replace_by, shut) shut
]

replaced_shut :
    (id new : ℕ) (ts : List RefreshToken)
    → any_by (is_open_id id) (map (replace_by id new) ts) ≡ false
replaced_shut id new [] = refl
replaced_shut id new (t ∷ ts) = rw (replaced_shut_row id new t) (replaced_shut id new ts)

-- The other table after an exchange of the token.
rotated_shut :
    (hash_token : ℕ → ℕ) (others : Vault → Vault) (now fresh given : ℕ) (t : RefreshToken)
    (v v' : Vault)
    → (others v).next_id ≢ t.id
    → rotate hash_token others now fresh t v ≡ (ok given, v')
    → any_by (is_open_id t.id) v'.tokens ≡ false
unfolding create_token is_open_id
rotated_shut hash_token others now fresh given t v v' new e =
    let (_, done) = rotate-ok hash_token others now fresh given t v v' e in
    let other : ((others v).next_id == t.id) ≡ false = ground (arith, new) in
    rw (done, create_token, is_open_id, other)
      (replaced_shut t.id (hash_token fresh) (others v).tokens)

rotate-lost :
    (hash_token : ℕ → ℕ) (now fresh : ℕ) (t : RefreshToken) (v v' : Vault)
    → any_by (is_open_id t.id) v'.tokens ≡ false
    → (rotate hash_token (λ _. v') now fresh t v).0 ≡ err unauthorized
unfolding rotate rotate_in_transaction reject_refresh_token_reuse
rotate-lost hash_token now fresh t v v' shut = ground arith

create_token-find_token :
    (hash user hash' now : ℕ) (role : RoleName) (v : Vault)
    → hash' ≢ hash
    → find_token hash (create_token user role hash' now v).tokens ≡ find_token hash v.tokens
unfolding create_token find_token
create_token-find_token hash user hash' now role v h =
    let other : (hash' == hash) ≡ false = ground (arith, h) in
    rw (create_token, find_token, other) refl

-- Once a refresh token was exchanged, with whatever other requests committed in between as long as
-- they left its row alone, and with a new token of another hash and another id: presented again it is
-- refused, whatever happens then, and no session of its user is open afterwards; and a request that
-- had read it before the exchange and comes to its own transaction after it is refused as well.
pub refresh-refresh :
    (hash_token : ℕ → ℕ) (others others' : Vault → Vault) (now now' fresh fresh' raw given : ℕ)
    (v v' : Vault) (t : RefreshToken)
    → find_token (hash_token raw) v.tokens ≡ some t
    → find_token (hash_token raw) (others v).tokens ≡ some t
    → hash_token fresh ≢ hash_token raw
    → (others v).next_id ≢ t.id
    → refresh_access_token hash_token others now fresh raw v ≡ (ok given, v')
    → IsTheft t.user (refresh_access_token hash_token others' now' fresh' raw v')
      × ((refresh_access_token hash_token (λ _. v') now' fresh' raw v).0 ≡ err unauthorized)
unfolding refresh_access_token
refresh-refresh hash_token others others' now now' fresh fresh' raw given v v' t found still new
      new_id e =
    let rotated : rotate hash_token others now fresh t v ≡ (ok given, v') =
      rw (refresh_access_token, found) at e in
    let (_, done) = rotate-ok hash_token others now fresh given t v v' rotated in
    let (u, there, same, shut) =
      find_token-replace_by (hash_token raw) t.id (hash_token fresh) (others v).tokens t still
        refl in
    let again : find_token (hash_token raw) v'.tokens ≡ some u =
      rw done
        (create_token-find_token (hash_token raw) t.user (hash_token fresh) now _ _ new ∙ there) in
    (
      subst (λ user. IsTheft user (refresh_access_token hash_token others' now' fresh' raw v')) same
          (refresh-revoked hash_token others' now' fresh' raw v' u again shut),
      rw (refresh_access_token, found)
          (rotate-lost hash_token now' fresh' t v v'
            (rotated_shut hash_token others now fresh given t v v' new_id rotated)),
    )
