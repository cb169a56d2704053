-- ===== src/Sessions.antt =====
-- The rows behind a session: refresh families and tokens with the constraints of
-- db/migrations/0007_create_auth_refresh_families.sql and 0008_create_auth_refresh_tokens.sql. A
-- timestamp is a number of microseconds, a digest the list of its bytes. Where a column is unique a
-- SELECT by it is a `find?`.
pub mod Refresh
pub mod Login
pub mod Logout
pub mod Outcome
pub mod Stable
pub mod Settled
pub mod Once
pub mod Reuse
mod Tests
use cloud_commitment_portfol.Base.{
  ℕ, Bool, true, false, not, ◌&&◌, ◌||◌, ◌==◌, Option, none, some, List, [], ◌∷◌, ◌++◌, map, find?,
  any, count, length, leb, if◌then◌else◌, ◌+◌, ◌*◌,
}
use cloud_commitment_portfol.Base.Text.{Text, text_eq}

pub data RevocationReason : Type 0 where
  logged_out reuse_detected password_reset user_inactive tenant_inactive role_changed
        operator_revoked :
      RevocationReason

-- `revoked_at` and `revocation_reason` are NULL together.
pub record Family : Type 0 where
  pub id : Text
  pub tenant_id : Text
  pub user_id : Text
  pub absolute_expires_at : ℕ
  pub revoked : Option (ℕ × RevocationReason)

pub record Token : Type 0 where
  pub id : Text
  pub tenant_id : Text
  pub family_id : Text
  pub parent_token_id : Option Text
  pub token_digest : Text
  pub csrf_digest : Text
  pub idle_expires_at : ℕ
  pub used_at : Option ℕ

pub record User : Type 0 where
  pub id : Text
  pub tenant_id : Text
  pub email : Text
  pub role : Text
  pub is_active : Bool

pub record Tenant : Type 0 where
  pub id : Text
  pub is_active : Bool

pub record Credential : Type 0 where
  pub tenant_id : Text
  pub user_id : Text
  pub password_hash : Text

-- The four entries that core/tenant/auth-session-audit.ts writes.
pub data AuditEntry : Type 0 where
  login_succeeded : Text → Text → Text → AuditEntry
  login_denied : Text → Text → RevocationReason → Text → AuditEntry
  refresh_reuse_detected : Text → Text → Text → AuditEntry
  logout_succeeded : Text → Text → Text → AuditEntry

pub record Database : Type 0 where
  pub tenants : List Tenant
  pub users : List User
  pub credentials : List Credential
  pub families : List Family
  pub tokens : List Token
  pub audit_log : List AuditEntry

-- `AUTH_DEPENDENCY_UNAVAILABLE`.
pub data AuthError : Type 0 where
  dependency_unavailable : AuthError

abbrev pub is_null : {A : Type 0} → Option A → Bool
is_null none = true
is_null (some a) = false

abbrev pub same_text : Option Text → Text → Bool
same_text none t = false
same_text (some s) t = text_eq s t

abbrev pub find_family : Text → Database → Option Family
find_family id db = find? (λ f. text_eq f.id id) db.families

abbrev pub find_token : Text → Database → Option Token
find_token digest db = find? (λ t. text_eq t.token_digest digest) db.tokens

abbrev pub find_tenant : Text → Database → Option Tenant
find_tenant id db = find? (λ t. text_eq t.id id) db.tenants

-- `UPDATE auth_refresh_families SET revoked_at = …, revocation_reason = … WHERE id = $1 AND
-- revoked_at IS NULL`, and the number of rows that it changes.
unfoldable pub revoke_row : Text → ℕ → RevocationReason → Family → Family
revoke_row id now reason f =
    if text_eq f.id id && is_null f.revoked then record f { revoked = some (now, reason) } else f

abbrev pub revoke_family : Text → ℕ → RevocationReason → Database → Database
revoke_family id now reason db = record db { families = map (revoke_row id now reason) db.families }

abbrev pub revocable : Text → Database → ℕ
revocable id db = count (λ (f : Family). text_eq f.id id && is_null f.revoked) db.families

-- `UPDATE auth_refresh_tokens SET used_at = … WHERE id = $1 AND used_at IS NULL`.
unfoldable pub use_row : Text → ℕ → Token → Token
use_row id now t =
    if text_eq t.id id && is_null t.used_at then record t { used_at = some now } else t

abbrev pub mark_used : Text → ℕ → Database → Database
mark_used id now db = record db { tokens = map (use_row id now) db.tokens }

abbrev pub usable : Text → Database → ℕ
usable id db = count (λ (t : Token). text_eq t.id id && is_null t.used_at) db.tokens

-- The unique indexes: two rows that may not stand beside each other.
abbrev pub one_parent : Option Text → Option Text → Bool
one_parent none none = true
one_parent none (some p) = false
one_parent (some p) none = false
one_parent (some p) (some q) = text_eq p q

-- Two tokens have one parent: two roots of a family, or two children of a token.
abbrev pub siblings : Token → Token → Bool
siblings new t =
    one_parent t.parent_token_id new.parent_token_id
    && (not (is_null new.parent_token_id) || text_eq t.family_id new.family_id)

unfoldable pub clashes : Token → Token → Bool
clashes new t =
    text_eq t.id new.id
    || text_eq t.token_digest new.token_digest
    || (text_eq t.family_id new.family_id && is_null t.used_at && is_null new.used_at)
    || siblings new t

-- The CHECK constraints of a new token, made at `now`.
unfoldable pub checks : ℕ → Token → Bool
checks now new =
    length new.token_digest == 32
    && length new.csrf_digest == 32
    && not (same_text new.parent_token_id new.id)
    && not (leb new.idle_expires_at now)

-- `INSERT INTO auth_refresh_tokens`; `none` where a constraint fails.
unfoldable pub insert_token : ℕ → Token → Database → Option Database
unfolding clashes checks
insert_token now new db =
    if checks now new && not (any (clashes new) db.tokens)
    then some record db { tokens = db.tokens ++ new ∷ [] }
    else none

abbrev pub audited : AuditEntry → Database → Database
audited entry db = record db { audit_log = db.audit_log ++ entry ∷ [] }

-- `interval '1 day'`.
abbrev pub one_day : ℕ
one_day = 24 * 60 * 60 * 1000000
