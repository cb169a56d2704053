-- ===== src/Sessions/Refresh.antt =====
-- core/tenant/auth-refresh-repository.ts and core/tenant/auth-refresh-rotation.ts: the rotation of a
-- refresh token, one transaction. Its locks make the transactions on a family follow each other.
use cloud_commitment_portfol.Base.{
  ℕ, ◌+◌, ◌*◌, ◌/◌, Bool, not, ◌&&◌, ◌||◌, ◌==◌, Option, none, some, find?, ltb, if◌then◌else◌,
  ◌>>=◌,
}
use cloud_commitment_portfol.Base.Text.{Text, text_eq}
use cloud_commitment_portfol.Base.Action.{Result, ok, throw, committed}
use cloud_commitment_portfol.Sessions.{
  RevocationReason, reuse_detected, user_inactive, tenant_inactive, Family, Token, User, Tenant,
  login_denied, refresh_reuse_detected, Database, AuthError, dependency_unavailable, is_null,
  find_family, find_token, find_tenant, revoke_family, revocable, mark_used, usable, insert_token,
  audited, one_day,
}

-- `AccessClaimsInput`.
pub record Claims : Type 0 where
  pub user_id : Text
  pub tenant_id : Text
  pub role : Text
  pub family_id : Text
  pub csrf_hash : Text
  pub issued_at : ℕ
  pub expires_at : ℕ

-- `SessionIssue` with its `SessionMetadata`; the timestamps before they are printed.
pub record SessionIssue : Type 0 where
  pub access_token : Text
  pub refresh_token : Text
  pub csrf_token : Text
  pub user_id : Text
  pub tenant_id : Text
  pub role : Text
  pub access_expires_at : ℕ
  pub refresh_idle_expires_at : ℕ
  pub refresh_absolute_expires_at : ℕ

-- `RefreshRotateInput` but for `sign`, with the tokens as text.
pub record RotateInput : Type 0 where
  pub family_id : Text
  pub presented_digest : Text
  pub presented_csrf_digest : Text
  pub request_id : Text
  pub child_id : Text
  pub child_token_digest : Text
  pub child_csrf_digest : Text
  pub refresh_token : Text
  pub csrf_token : Text
  pub access_lifetime_seconds : ℕ

-- `RefreshTransactionResult`.
pub data RefreshResult : Type 0 where
  issued : SessionIssue → RefreshResult
  invalid csrf_invalid : RefreshResult
  inactive : RevocationReason → RefreshResult

-- `RefreshRow`.
pub record RefreshRow : Type 0 where
  pub token_id : Text
  pub family_id : Text
  pub tenant_id : Text
  pub user_id : Text
  pub role : Text
  pub user_active : Bool
  pub tenant_active : Bool
  pub csrf_digest : Text
  pub used : Bool
  pub idle_valid : Bool
  pub absolute_valid : Bool
  pub revoked : Bool
  pub absolute_expires_at : ℕ

unfoldable pub refresh_row : ℕ → Family → Token → User → Tenant → RefreshRow
refresh_row now f t u tenant = record {
  token_id = t.id;
  family_id = f.id;
  tenant_id = f.tenant_id;
  user_id = f.user_id;
  role = u.role;
  user_active = u.is_active;
  tenant_active = tenant.is_active;
  csrf_digest = t.csrf_digest;
  used = not (is_null t.used_at);
  idle_valid = ltb now t.idle_expires_at;
  absolute_valid = ltb now f.absolute_expires_at;
  revoked = not (is_null f.revoked);
  absolute_expires_at = f.absolute_expires_at;
}

-- The token of the digest, if it joins with the family.
abbrev pub joined_token : Family → Token → Option Token
joined_token f t =
    if text_eq t.family_id f.id && text_eq t.tenant_id f.tenant_id then some t else none

abbrev pub joined_user : Family → Database → Option User
joined_user f db = find? (λ u. text_eq u.id f.user_id && text_eq u.tenant_id f.tenant_id) db.users

-- `readRefresh`.
unfoldable pub read_refresh : ℕ → Text → Text → Database → Option RefreshRow
unfolding refresh_row
read_refresh now family_id digest db = do
  f ← find_family family_id db
  candidate ← find_token digest db
  t ← joined_token f candidate
  u ← joined_user f db
  tenant ← find_tenant f.tenant_id db
  some (refresh_row now f t u tenant)

-- `least(transaction_timestamp() + interval '7 days', absolute)`.
unfoldable pub idle_expiry : ℕ → ℕ → ℕ
idle_expiry now absolute = if ltb absolute (now + 7 * one_day) then absolute else now + 7 * one_day

unfoldable pub child_token : ℕ → RotateInput → RefreshRow → Token
unfolding idle_expiry
child_token now input row = record {
  id = input.child_id;
  tenant_id = row.tenant_id;
  family_id = input.family_id;
  parent_token_id = some row.token_id;
  token_digest = input.child_token_digest;
  csrf_digest = input.child_csrf_digest;
  idle_expires_at = idle_expiry now row.absolute_expires_at;
  used_at = none;
}

-- `markUsedAndInsertChild`; `none` is a throw.
unfoldable pub mark_used_and_insert_child :
    ℕ → RotateInput → RefreshRow → Database → Option Database
unfolding child_token
mark_used_and_insert_child now input row db =
    if usable row.token_id db == 1
    then insert_token now (child_token now input row) (mark_used row.token_id now db)
    else none

abbrev pub or_unavailable :
    {A : Type 0} → A → Database → Option Database → Result AuthError A × Database
or_unavailable a before none = (throw dependency_unavailable, before)
or_unavailable a before (some db) = (ok a, db)

-- `revokeReuse`.
unfoldable pub revoke_reuse :
    ℕ → RefreshRow → Text → Database → Result AuthError RefreshResult × Database
revoke_reuse now row request_id db =
    if revocable row.family_id db == 1
    then (
      ok invalid,
      audited (refresh_reuse_detected row.tenant_id row.user_id request_id)
          (revoke_family row.family_id now reuse_detected db),
    )
    else (throw dependency_unavailable, revoke_family row.family_id now reuse_detected db)

-- `revokeInactive`.
unfoldable pub revoke_inactive : ℕ → RefreshRow → RevocationReason → Text → Database → Database
revoke_inactive now row reason request_id db =
    audited (login_denied row.tenant_id row.user_id reason request_id)
      (revoke_family row.family_id now reason db)

abbrev pub inactive_reason : RefreshRow → Option RevocationReason
inactive_reason row =
    if row.tenant_active
    then (if row.user_active then none else some user_inactive)
    else some tenant_inactive

-- The signer of access tokens and `toString("base64url")` of a digest.
module _ (sign : Claims → Text) (base64url : Text → Text) where
  unfoldable pub rotated_issue : ℕ → RotateInput → RefreshRow → SessionIssue
  unfolding idle_expiry
  rotated_issue now input row = record {
    access_token = sign record {
      user_id = row.user_id;
      tenant_id = row.tenant_id;
      role = row.role;
      family_id = input.family_id;
      csrf_hash = base64url input.child_csrf_digest;
      issued_at = now / 1000000;
      expires_at = (now + input.access_lifetime_seconds * 1000000) / 1000000;
    };
    refresh_token = input.refresh_token;
    csrf_token = input.csrf_token;
    user_id = row.user_id;
    tenant_id = row.tenant_id;
    role = row.role;
    access_expires_at = now + input.access_lifetime_seconds * 1000000;
    refresh_idle_expires_at = idle_expiry now row.absolute_expires_at;
    refresh_absolute_expires_at = row.absolute_expires_at;
  }

  -- `rotateCurrent`.
  unfoldable pub rotate_current :
      ℕ → RotateInput → RefreshRow → Database → Result AuthError RefreshResult × Database
  unfolding mark_used_and_insert_child rotated_issue
  rotate_current now input row db =
      or_unavailable (issued (rotated_issue now input row)) db
        (mark_used_and_insert_child now input row db)

  abbrev pub evaluate_live :
      ℕ → RotateInput → RefreshRow → Database → Result AuthError RefreshResult × Database
  evaluate_live now input row db =
      if row.used
      then revoke_reuse now row input.request_id db
      else if not row.idle_valid || not row.absolute_valid
      then (ok invalid, db)
      else rotate_current now input row db

  abbrev pub evaluate_active :
      ℕ
      → RotateInput
      → RefreshRow
      → Database
      → Option RevocationReason
      → Result AuthError RefreshResult × Database
  evaluate_active now input row db (some reason) =
      (ok (inactive reason), revoke_inactive now row reason input.request_id db)
  evaluate_active now input row db none = evaluate_live now input row db

  abbrev pub evaluate_row :
      ℕ → RotateInput → Database → Option RefreshRow → Result AuthError RefreshResult × Database
  evaluate_row now input db none = (ok invalid, db)
  evaluate_row now input db (some row) =
      if not (text_eq row.csrf_digest input.presented_csrf_digest)
      then (ok csrf_invalid, db)
      else if row.revoked
      then (ok invalid, db)
      else evaluate_active now input row db (inactive_reason row)

  -- `evaluateLockedRefresh`; a family that is missing gives no row either.
  unfoldable pub evaluate_locked_refresh :
      ℕ → RotateInput → Database → Result AuthError RefreshResult × Database
  unfolding read_refresh revoke_reuse revoke_inactive rotate_current
  evaluate_locked_refresh now input db =
      evaluate_row now input db (read_refresh now input.family_id input.presented_digest db)

  -- `rotate`: `BEGIN … COMMIT`, or a connection that is lost at some statement.
  unfoldable pub rotate :
      Bool → ℕ → RotateInput → Database → Result AuthError RefreshResult × Database
  unfolding evaluate_locked_refresh
  rotate lost now input db =
      if lost
      then (throw dependency_unavailable, db)
      else committed db (evaluate_locked_refresh now input db)
