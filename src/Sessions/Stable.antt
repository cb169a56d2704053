-- ===== src/Sessions/Stable.antt =====
-- What no later statement takes back: a token that was used stays used, a family that was revoked
-- stays revoked, under every rotation, login, logout and change of accounts.
use cloud_commitment_portfol.Base.{
  ℕ, ◌≡◌, subst, Bool, not, ◌&&◌, ◌==◌, Option, none, some, List, [], ◌∷◌, ◌++◌, any, if_cases,
  Option-cases, >>=-eq-some, some_inj, inl, inr,
}
use cloud_commitment_portfol.Base.Text.{Text, text_eq}
use cloud_commitment_portfol.Base.Action.{Result, committed}
use cloud_commitment_portfol.Sessions.{
  RevocationReason, logged_out, reuse_detected, Family, Token, User, Tenant, Credential, AuditEntry,
  Database, AuthError, revoke_family, revocable, mark_used, usable, checks, clashes, insert_token,
  audited,
}
use cloud_commitment_portfol.Sessions.Refresh.{
  Claims, RotateInput, RefreshResult, RefreshRow, child_token, mark_used_and_insert_child,
  revoke_inactive, rotate,
}
use cloud_commitment_portfol.Sessions.Login.{
  LoginInput, LoginProof, new_family, root_token, insert_family, insert_session, lock_login_proof,
  proof_inactive, hash_matches, issue_active, issue_proof, issue_login,
}
use cloud_commitment_portfol.Sessions.Logout.{
  LogoutInput, LogoutResult, LogoutRow, read_token, revoke_and_audit, logout_row, logout,
}
use cloud_commitment_portfol.Sessions.Outcome.{
  Outcome, failed, csrf_refused, refused, denied, reused, rotated, rotate-Outcome,
}

-- A change of accounts by another part of the program.
abbrev pub with_accounts : List Tenant → List User → List Credential → Database → Database
with_accounts tenants users credentials db = record db {
  tenants = tenants;
  users = users;
  credentials = credentials;
}

-- A property of the rows that every statement keeps.
pub record IsStable (P : Database → Type 0) : Type 0 where
  pub keeps_use : (id : Text) (now : ℕ) (db : Database) → P db → P (mark_used id now db)
  pub keeps_revocation :
      (id : Text) (now : ℕ) (reason : RevocationReason) (db : Database)
      → P db
      → P (revoke_family id now reason db)
  pub keeps_token :
      (new : Token) (db : Database) → P db → P (record db { tokens = db.tokens ++ new ∷ [] })
  pub keeps_family :
      (new : Family) (db : Database) → P db → P (record db { families = db.families ++ new ∷ [] })
  pub keeps_audit : (entry : AuditEntry) (db : Database) → P db → P (audited entry db)
  pub keeps_accounts :
      (tenants : List Tenant) (users : List User) (credentials : List Credential) (db : Database)
      → P db
      → P (with_accounts tenants users credentials db)

module _ (P : Database → Type 0) (stable : IsStable P) where
  pub insert_token-stable :
      (now : ℕ) (new : Token) (db : Database) {db' : Database}
      → insert_token now new db ≡ some db'
      → P db
      → P db'
  unfolding insert_token
  insert_token-stable now new db {db'} =
      if_cases (λ (o : Option Database). o ≡ some db' → P db → P db')
        (checks now new && not (any (clashes new) db.tokens))
        (λ e h p. subst P (some_inj h) (stable.keeps_token new db p)) (λ e h p. absurd (cc))

  insert_family-stable :
      (new : Family) (db : Database) {db' : Database}
      → insert_family new db ≡ some db'
      → P db
      → P db'
  unfolding insert_family
  insert_family-stable new db {db'} =
      if_cases (λ (o : Option Database). o ≡ some db' → P db → P db')
        (any (λ (f : Family). text_eq f.id new.id) db.families) (λ e h p. absurd (cc))
        (λ e h p. subst P (some_inj h) (stable.keeps_family new db p))

  child-stable :
      (now : ℕ) (input : RotateInput) (row : RefreshRow) (db : Database) {db' : Database}
      → mark_used_and_insert_child now input row db ≡ some db'
      → P db
      → P db'
  unfolding mark_used_and_insert_child
  child-stable now input row db {db'} =
      if_cases (λ (o : Option Database). o ≡ some db' → P db → P db') (usable row.token_id db == 1)
        (λ e h p.
          insert_token-stable now (child_token now input row) (mark_used row.token_id now db) h
            (stable.keeps_use row.token_id now db p))
        (λ e h p. absurd (cc))

  Outcome-stable :
      (sign : Claims → Text) (base64url : Text → Text) (now : ℕ) (input : RotateInput)
      (db : Database) (r : Result AuthError RefreshResult × Database)
      → Outcome sign base64url now input db r
      → P db
      → P r.1
  unfolding revoke_inactive
  Outcome-stable sign base64url now input db r failed p = p
  Outcome-stable sign base64url now input db r csrf_refused p = p
  Outcome-stable sign base64url now input db r refused p = p
  Outcome-stable sign base64url now input db r (denied row reason _ _ _ _) p =
      stable.keeps_audit _ _ (stable.keeps_revocation row.family_id now reason db p)
  Outcome-stable sign base64url now input db r (reused row _ _ _ _ _) p =
      stable.keeps_audit _ _ (stable.keeps_revocation row.family_id now reuse_detected db p)
  Outcome-stable sign base64url now input db r (rotated row after _ inserted) p =
      child-stable now input row db inserted p

  pub rotate-stable :
      (sign : Claims → Text) (base64url : Text → Text) (lost : Bool) (now : ℕ) (input : RotateInput)
      (db : Database)
      → P db
      → P (rotate sign base64url lost now input db).1
  rotate-stable sign base64url lost now input db =
      Outcome-stable sign base64url now input db (rotate sign base64url lost now input db)
        (rotate-Outcome sign base64url now input db lost)

  insert_session-stable :
      (now : ℕ) (input : LoginInput) (identity : LoginProof) (db : Database) {db' : Database}
      → insert_session now input identity db ≡ some db'
      → P db
      → P db'
  unfolding insert_session
  insert_session-stable now input identity db h p =
      let (middle, first, second) =
        >>=-eq-some (insert_family (new_family now input identity) db) _ h in
      insert_token-stable now (root_token now input) middle second
        (insert_family-stable (new_family now input identity) db first p)

  module _ (db : Database) (p : P db) where
    abbrev After : {R : Type 0} → Result AuthError R × Database → Type 0
    After r = P (committed db r).1

    session-After :
        (sign : Claims → Text) (base64url : Text → Text) (now : ℕ) (input : LoginInput)
        (identity : LoginProof) (inactive : Option RevocationReason)
        → After (issue_active sign base64url now input db identity inactive)
    session-After sign base64url now input identity (some reason) = stable.keeps_audit _ db p
    session-After sign base64url now input identity none =
        elim (Option-cases (insert_session now input identity db)) [
          | inl e ↦ rw e p
          | inr (db', e) ↦
              rw e (stable.keeps_audit _ db' (insert_session-stable now input identity db e p))
        ]

    proof-After :
        (sign : Claims → Text) (base64url : Text → Text) (now : ℕ) (input : LoginInput)
        (locked : Option LoginProof)
        → After (issue_proof sign base64url now input db locked)
    proof-After sign base64url now input none = p
    proof-After sign base64url now input (some locked) =
        if_cases After (hash_matches locked.password_hash input.expected_password_hash)
          (λ e. session-After sign base64url now input locked (proof_inactive locked)) (λ e. p)

    pub issue_login-stable :
        (sign : Claims → Text) (base64url : Text → Text) (lost : Bool) (now : ℕ)
        (input : LoginInput)
        → P (issue_login sign base64url lost now input db).1
    unfolding issue_login
    issue_login-stable sign base64url lost now input =
        if_cases (λ (r : Result AuthError RefreshResult × Database). P r.1) lost (λ e. p)
          (λ e.
            proof-After sign base64url now input (lock_login_proof input.tenant_id input.email db))

    logout_row-After :
        (now : ℕ) (input : LogoutInput) (row : Option LogoutRow)
        → After (logout_row now input db row)
    unfolding revoke_and_audit
    logout_row-After now input none = p
    logout_row-After now input (some row) =
        if_cases After (not (text_eq row.csrf_digest input.presented_csrf_digest)) (λ e. p)
          (λ e.
            if_cases After (not row.revoked)
              (λ e'.
                if_cases After (revocable input.family_id db == 1)
                  (λ one.
                    stable.keeps_audit _ _
                      (stable.keeps_revocation input.family_id now logged_out db p))
                  (λ other. p))
              (λ e'. p))

    pub logout-stable :
        (lost : Bool) (now : ℕ) (input : LogoutInput) → P (logout lost now input db).1
    unfolding logout
    logout-stable lost now input =
        if_cases (λ (r : Result AuthError LogoutResult × Database). P r.1) lost (λ e. p)
          (λ e. logout_row-After now input (read_token input.family_id input.presented_digest db))
