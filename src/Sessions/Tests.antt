-- ===== src/Sessions/Tests.antt =====
-- A login, its refresh, the reuse of the refreshed token and what follows.
use cloud_commitment_portfol.Base.{
  ℕ, ◌+◌, ◌*◌, ◌≤◌, ◌≡◌, refl, true, false, some, List, [], ◌∷◌, replicate,
}
use cloud_commitment_portfol.Base.Text.{Text, codes, text_eq}
use cloud_commitment_portfol.Sessions.{
  Database, revoke_row, use_row, clashes, checks, insert_token, one_day,
}
use cloud_commitment_portfol.Sessions.Refresh.{
  Claims, RotateInput, RefreshRow, refresh_row, read_refresh, idle_expiry, child_token,
  mark_used_and_insert_child, revoke_reuse, revoke_inactive, rotated_issue, rotate_current,
  evaluate_locked_refresh, rotate,
}
use cloud_commitment_portfol.Sessions.Login.{
  LoginInput, lock_login_proof, new_family, root_token, insert_family, insert_session, login_issue,
  issue_login,
}
use cloud_commitment_portfol.Sessions.Outcome.{Outcome}
use cloud_commitment_portfol.Sessions.Once.{
  Event, rotates, logs_in, step, exchanges, of_digest, of_family, exchanges-once,
}
use cloud_commitment_portfol.Sessions.Reuse.{exchanges-after_reuse}

statements : Unit {0}
unfolding text_eq revoke_row use_row clashes checks insert_token refresh_row read_refresh
    idle_expiry child_token mark_used_and_insert_child revoke_reuse revoke_inactive rotated_issue
    rotate_current evaluate_locked_refresh rotate lock_login_proof new_family root_token
    insert_family insert_session login_issue issue_login
statements = tt

abbrev no_signature : Claims → Text
no_signature claims = codes "jwt"

abbrev plain : Text → Text
plain digest = digest

abbrev digest_of : ℕ → Text
digest_of n = replicate 32 n

abbrev accounts : Database
accounts = record {
  tenants = record { id = codes "t"; is_active = true } ∷ [];
  users =
      record {
        id = codes "u";
        tenant_id = codes "t";
        email = codes "e";
        role = codes "tenant_admin";
        is_active = true;
      }
      ∷ [];
  credentials =
      record { tenant_id = codes "t"; user_id = codes "u"; password_hash = codes "h" } ∷ [];
  families = [];
  tokens = [];
  audit_log = [];
}

abbrev logs : LoginInput
logs = record {
  tenant_id = codes "t";
  email = codes "e";
  expected_password_hash = codes "h";
  request_id = codes "q";
  family_id = codes "f";
  token_id = codes "k0";
  token_digest = digest_of 1;
  csrf_digest = digest_of 2;
  refresh_token = codes "r0";
  csrf_token = codes "c0";
  access_lifetime_seconds = 900;
}

abbrev asks : Text → ℕ → ℕ → RotateInput
asks child digest csrf = record {
  family_id = codes "f";
  presented_digest = digest_of digest;
  presented_csrf_digest = digest_of csrf;
  request_id = codes "q";
  child_id = child;
  child_token_digest = digest_of (digest + 2);
  child_csrf_digest = digest_of (csrf + 2);
  refresh_token = codes "r";
  csrf_token = codes "c";
  access_lifetime_seconds = 900;
}

abbrev history : List Event
history =
    logs_in false 10 logs
    ∷ rotates false 20 (asks (codes "k1") 1 2)
    ∷ rotates false 30 (asks (codes "k2") 1 2)
    ∷ rotates false 40 (asks (codes "k3") 3 4)
    ∷ []

-- The login and the first refresh succeed; the reuse ends the family.
refreshes : exchanges no_signature plain (of_family (codes "f")) history accounts ≡ 1
unfolding statements
refreshes = refl

-- The rows after the login and the refresh.
abbrev refreshed : Database
refreshed =
    step no_signature plain (rotates false 20 (asks (codes "k1") 1 2))
      (step no_signature plain (logs_in false 10 logs) accounts)

once_example : exchanges no_signature plain (of_digest (digest_of 1)) history accounts ≤ 1
once_example = exchanges-once no_signature plain (digest_of 1) history accounts

abbrev used_row : RefreshRow
used_row = record {
  token_id = codes "k0";
  family_id = codes "f";
  tenant_id = codes "t";
  user_id = codes "u";
  role = codes "tenant_admin";
  user_active = true;
  tenant_active = true;
  csrf_digest = digest_of 2;
  used = true;
  idle_valid = true;
  absolute_valid = true;
  revoked = false;
  absolute_expires_at = 10 + 30 * one_day;
}

reads_used : read_refresh 30 (codes "f") (digest_of 1) refreshed ≡ some used_row
unfolding statements
reads_used = refl

reuse_example :
    exchanges no_signature plain
      (of_family (codes "f"))
      (rotates false 40 (asks (codes "k3") 3 4) ∷ [])
      (step no_signature plain (rotates false 30 (asks (codes "k2") 1 2)) refreshed)
    ≡ 0
unfolding statements
reuse_example =
    exchanges-after_reuse no_signature plain 30 (asks (codes "k2") 1 2) refreshed used_row
      reads_used refl refl refl refl refl (rotates false 40 (asks (codes "k3") 3 4) ∷ [])
