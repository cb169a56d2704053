-- ===== src/Sessions/Login.antt =====
-- core/tenant/auth-login-repository.ts: the issue of a session after the password was checked, one
-- transaction.
use cloud_commitment_portfol.Base.{
  ℕ, ◌+◌, ◌*◌, ◌/◌, Bool, false, ◌&&◌, Option, none, some, [], ◌∷◌, ◌++◌, find?, any, if◌then◌else◌,
  ◌>>=◌,
}
use cloud_commitment_portfol.Base.Text.{Text, text_eq}
use cloud_commitment_portfol.Base.Action.{Result, ok, throw, committed}
use cloud_commitment_portfol.Sessions.{
  RevocationReason, user_inactive, tenant_inactive, Family, Token, User, Credential, login_denied,
  login_succeeded, Database, AuthError, dependency_unavailable, find_tenant, insert_token, audited,
  one_day,
}
use cloud_commitment_portfol.Sessions.Refresh.{
  Claims, SessionIssue, RefreshResult, issued, invalid, inactive, or_unavailable,
}

-- `LoginIssueInput` but for `sign`.
pub record LoginInput : Type 0 where
  pub tenant_id : Text
  pub email : Text
  pub expected_password_hash : Text
  pub request_id : Text
  pub family_id : Text
  pub token_id : Text
  pub token_digest : Text
  pub csrf_digest : Text
  pub refresh_token : Text
  pub csrf_token : Text
  pub access_lifetime_seconds : ℕ

-- What `lockLoginProof` returns.
pub record LoginProof : Type 0 where
  pub id : Text
  pub role : Text
  pub user_active : Bool
  pub tenant_active : Bool
  pub password_hash : Option Text

abbrev pub hash_of : Option Credential → Option Text
hash_of none = none
hash_of (some c) = some c.password_hash

-- `lockLoginProof`.
unfoldable pub lock_login_proof : Text → Text → Database → Option LoginProof
lock_login_proof tenant_id email db = do
  tenant ← find_tenant tenant_id db
  identity ← find? (λ (u : User). text_eq u.tenant_id tenant_id && text_eq u.email email) db.users
  some record {
    id = identity.id;
    role = identity.role;
    user_active = identity.is_active;
    tenant_active = tenant.is_active;
    password_hash = hash_of (
        find? (λ c. text_eq c.tenant_id tenant_id && text_eq c.user_id identity.id) db.credentials);
  }

unfoldable pub new_family : ℕ → LoginInput → LoginProof → Family
new_family now input identity = record {
  id = input.family_id;
  tenant_id = input.tenant_id;
  user_id = identity.id;
  absolute_expires_at = now + 30 * one_day;
  revoked = none;
}

unfoldable pub root_token : ℕ → LoginInput → Token
root_token now input = record {
  id = input.token_id;
  tenant_id = input.tenant_id;
  family_id = input.family_id;
  parent_token_id = none;
  token_digest = input.token_digest;
  csrf_digest = input.csrf_digest;
  idle_expires_at = now + 7 * one_day;
  used_at = none;
}

-- `INSERT INTO auth_refresh_families`; its expiry lies after its creation, so the key may clash
-- and no CHECK fails.
unfoldable pub insert_family : Family → Database → Option Database
insert_family new db =
    if any (λ (f : Family). text_eq f.id new.id) db.families
    then none
    else some record db { families = db.families ++ new ∷ [] }

-- The two INSERTs of `insertSession`; `none` is a throw.
unfoldable pub insert_session : ℕ → LoginInput → LoginProof → Database → Option Database
unfolding new_family root_token insert_family
insert_session now input identity db = do
  with_family ← insert_family (new_family now input identity) db
  insert_token now (root_token now input) with_family

abbrev pub proof_inactive : LoginProof → Option RevocationReason
proof_inactive p =
    if p.tenant_active
    then (if p.user_active then none else some user_inactive)
    else some tenant_inactive

abbrev pub hash_matches : Option Text → Text → Bool
hash_matches none expected = false
hash_matches (some hash) expected = text_eq hash expected

module _ (sign : Claims → Text) (base64url : Text → Text) where
  unfoldable pub login_issue : ℕ → LoginInput → LoginProof → SessionIssue
  login_issue now input identity = record {
    access_token = sign record {
      user_id = identity.id;
      tenant_id = input.tenant_id;
      role = identity.role;
      family_id = input.family_id;
      csrf_hash = base64url input.csrf_digest;
      issued_at = now / 1000000;
      expires_at = (now + input.access_lifetime_seconds * 1000000) / 1000000;
    };
    refresh_token = input.refresh_token;
    csrf_token = input.csrf_token;
    user_id = identity.id;
    tenant_id = input.tenant_id;
    role = identity.role;
    access_expires_at = now + input.access_lifetime_seconds * 1000000;
    refresh_idle_expires_at = now + 7 * one_day;
    refresh_absolute_expires_at = now + 30 * one_day;
  }

  abbrev pub audited_session : LoginInput → LoginProof → Option Database → Option Database
  audited_session input identity none = none
  audited_session input identity (some db) =
      some (audited (login_succeeded input.tenant_id identity.id input.request_id) db)

  abbrev pub issue_active :
      ℕ
      → LoginInput
      → Database
      → LoginProof
      → Option RevocationReason
      → Result AuthError RefreshResult × Database
  issue_active now input db identity (some reason) = (
    ok (inactive reason),
    audited (login_denied input.tenant_id identity.id reason input.request_id) db,
  )
  issue_active now input db identity none =
      or_unavailable (issued (login_issue now input identity)) db
        (audited_session input identity (insert_session now input identity db))

  abbrev pub issue_proof :
      ℕ → LoginInput → Database → Option LoginProof → Result AuthError RefreshResult × Database
  issue_proof now input db none = (ok invalid, db)
  issue_proof now input db (some locked) =
      if hash_matches locked.password_hash input.expected_password_hash
      then issue_active now input db locked (proof_inactive locked)
      else (ok invalid, db)

  -- `evaluateLockedLogin` and `issue`.
  unfoldable pub issue_login :
      Bool → ℕ → LoginInput → Database → Result AuthError RefreshResult × Database
  unfolding lock_login_proof insert_session login_issue
  issue_login lost now input db =
      if lost
      then (throw dependency_unavailable, db)
      else committed db (issue_proof now input db (lock_login_proof input.tenant_id input.email db))
