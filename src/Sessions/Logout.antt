-- ===== src/Sessions/Logout.antt =====
-- core/tenant/auth-logout-repository.ts: the logout of a session, one transaction.
use cloud_commitment_portfol.Base.{ℕ, Bool, not, ◌==◌, Option, none, some, if◌then◌else◌, ◌>>=◌}
use cloud_commitment_portfol.Base.Text.{Text, text_eq}
use cloud_commitment_portfol.Base.Action.{Result, ok, throw, committed}
use cloud_commitment_portfol.Sessions.{
  logged_out, logout_succeeded, Database, AuthError, dependency_unavailable, is_null, find_family,
  find_token, revoke_family, revocable, audited,
}
use cloud_commitment_portfol.Sessions.Refresh.{joined_token}

pub record LogoutInput : Type 0 where
  pub family_id : Text
  pub presented_digest : Text
  pub presented_csrf_digest : Text
  pub request_id : Text

pub data LogoutResult : Type 0 where
  complete csrf_invalid : LogoutResult

pub record LogoutRow : Type 0 where
  pub tenant_id : Text
  pub user_id : Text
  pub csrf_digest : Text
  pub revoked : Bool

-- `readToken`.
unfoldable pub read_token : Text → Text → Database → Option LogoutRow
read_token family_id digest db = do
  f ← find_family family_id db
  candidate ← find_token digest db
  t ← joined_token f candidate
  some record {
    tenant_id = f.tenant_id;
    user_id = f.user_id;
    csrf_digest = t.csrf_digest;
    revoked = not (is_null f.revoked);
  }

-- `revokeAndAudit`.
unfoldable pub revoke_and_audit :
    ℕ → LogoutInput → LogoutRow → Database → Result AuthError LogoutResult × Database
revoke_and_audit now input row db =
    if revocable input.family_id db == 1
    then (
      ok complete,
      audited (logout_succeeded row.tenant_id row.user_id input.request_id)
          (revoke_family input.family_id now logged_out db),
    )
    else (throw dependency_unavailable, revoke_family input.family_id now logged_out db)

abbrev pub logout_row :
    ℕ → LogoutInput → Database → Option LogoutRow → Result AuthError LogoutResult × Database
logout_row now input db none = (ok complete, db)
logout_row now input db (some row) =
    if not (text_eq row.csrf_digest input.presented_csrf_digest)
    then (ok csrf_invalid, db)
    else if not row.revoked
    then revoke_and_audit now input row db
    else (ok complete, db)

-- `logout`.
unfoldable pub logout : Bool → ℕ → LogoutInput → Database → Result AuthError LogoutResult × Database
unfolding read_token revoke_and_audit
logout lost now input db =
    if lost
    then (throw dependency_unavailable, db)
    else committed db
        (logout_row now input db (read_token input.family_id input.presented_digest db))
