-- ===== src/Sessions/Outcome.antt =====
-- What a rotation may do, branch by branch, and what its reading of the rows finds.
use cloud_commitment_portfol.Base.{
  ℕ, ◌≡◌, ◌∙◌, refl, ap, Bool, true, false, not, ◌&&◌, ◌||◌, ◌==◌, Option, none, some, if_cases,
  Option-cases, >>=-eq-some, some_inj, inl, inr, arith,
}
use cloud_commitment_portfol.Base.Text.{Text, text_eq}
use cloud_commitment_portfol.Base.Action.{Result, ok, throw, committed}
use cloud_commitment_portfol.Sessions.{
  RevocationReason, reuse_detected, Family, Token, User, Tenant, refresh_reuse_detected,
  login_denied, Database, AuthError, dependency_unavailable, find_family, find_token, find_tenant,
  revoke_family, revocable, audited,
}
use cloud_commitment_portfol.Sessions.Refresh.{
  Claims, RotateInput, RefreshResult, issued, invalid, csrf_invalid, inactive, RefreshRow,
  refresh_row, joined_token, joined_user, read_refresh, mark_used_and_insert_child, revoke_reuse,
  revoke_inactive, inactive_reason, rotated_issue, rotate_current, evaluate_live, evaluate_active,
  evaluate_row, evaluate_locked_refresh, rotate,
}

abbrev read_row : ℕ → RotateInput → Database → Option RefreshRow
read_row now input db = read_refresh now input.family_id input.presented_digest db

-- The rows behind what was read.
pub record Rows (now : ℕ) (family_id digest : Text) (db : Database) (row : RefreshRow)
    : Type 0 where
  pub family : Family
  pub token : Token
  pub user : User
  pub tenant : Tenant
  pub found_family : find_family family_id db ≡ some family
  pub found_token : find_token digest db ≡ some token
  pub is_row : refresh_row now family token user tenant ≡ row

joined_token-same : (f : Family) (c t : Token) → joined_token f c ≡ some t → c ≡ t
joined_token-same f c t =
    if_cases (λ (o : Option Token). o ≡ some t → c ≡ t)
      (text_eq c.family_id f.id && text_eq c.tenant_id f.tenant_id) (λ e h. some_inj h)
      (λ e h. absurd (cc))

pub read_refresh-Rows :
    (now : ℕ) (family_id digest : Text) (db : Database) (row : RefreshRow)
    → read_refresh now family_id digest db ≡ some row
    → Rows now family_id digest db row
unfolding read_refresh
read_refresh-Rows now family_id digest db row h =
    let (f, found_f, h1) = >>=-eq-some (find_family family_id db) _ h in
    let (c, found_c, h2) = >>=-eq-some (find_token digest db) _ h1 in
    let (t, joined, h3) = >>=-eq-some (joined_token f c) _ h2 in
    let (u, found_u, h4) = >>=-eq-some (joined_user f db) _ h3 in
    let (tenant, found_tenant, h5) = >>=-eq-some (find_tenant f.tenant_id db) _ h4 in
    record {
      family = f;
      token = t;
      user = u;
      tenant = tenant;
      found_family = found_f;
      found_token = found_c ∙ ap some (joined_token-same f c t joined);
      is_row = some_inj h5;
    }

module _ (sign : Claims → Text) (base64url : Text → Text) (now : ℕ) (input : RotateInput)
    (db : Database) where
  -- What is true of a row that rotates.
  pub record Rotates (row : RefreshRow) : Type 0 where
    pub reads : read_refresh now input.family_id input.presented_digest db ≡ some row
    pub csrf_matches : text_eq row.csrf_digest input.presented_csrf_digest ≡ true
    pub not_revoked : row.revoked ≡ false
    pub is_active : inactive_reason row ≡ none
    pub not_used : row.used ≡ false
    pub idle_valid : row.idle_valid ≡ true
    pub absolute_valid : row.absolute_valid ≡ true

  pub data Outcome : Result AuthError RefreshResult × Database → Type 0 where
    failed : Outcome (throw dependency_unavailable, db)
    csrf_refused : Outcome (ok csrf_invalid, db)
    refused : Outcome (ok invalid, db)
    denied :
        (row : RefreshRow) (reason : RevocationReason)
        → read_refresh now input.family_id input.presented_digest db ≡ some row
        → text_eq row.csrf_digest input.presented_csrf_digest ≡ true
        → row.revoked ≡ false
        → inactive_reason row ≡ some reason
        → Outcome (
          ok (inactive reason),
          audited
              (login_denied row.tenant_id row.user_id reason input.request_id)
              (revoke_family row.family_id now reason db),
        )
    reused :
        (row : RefreshRow)
        → read_refresh now input.family_id input.presented_digest db ≡ some row
        → text_eq row.csrf_digest input.presented_csrf_digest ≡ true
        → row.revoked ≡ false
        → inactive_reason row ≡ none
        → row.used ≡ true
        → Outcome (
          ok invalid,
          audited
              (refresh_reuse_detected row.tenant_id row.user_id input.request_id)
              (revoke_family row.family_id now reuse_detected db),
        )
    rotated :
        (row : RefreshRow) (after : Database)
        → Rotates row
        → mark_used_and_insert_child now input row db ≡ some after
        → Outcome (ok (issued (rotated_issue sign base64url now input row)), after)

  abbrev Commits : Result AuthError RefreshResult × Database → Type 0
  Commits r = Outcome (committed db r)

  rotate_current-Outcome :
      (row : RefreshRow) → Rotates row → Commits (rotate_current sign base64url now input row db)
  unfolding rotate_current
  rotate_current-Outcome row h = elim (Option-cases (mark_used_and_insert_child now input row db)) [
    | inl e ↦ rw e failed
    | inr (after, e) ↦ rw e (rotated row after h e)
  ]

  module _ (row : RefreshRow) (reads : read_row now input db ≡ some row)
      (csrf : text_eq row.csrf_digest input.presented_csrf_digest ≡ true)
      (open_family : row.revoked ≡ false) where
    evaluate_live-Outcome :
        inactive_reason row ≡ none → Commits (evaluate_live sign base64url now input row db)
    unfolding revoke_reuse
    evaluate_live-Outcome active =
        if_cases Commits row.used
          (λ used.
            if_cases Commits (revocable row.family_id db == 1)
              (λ e. reused row reads csrf open_family active used) (λ e. failed))
          (λ unused.
            if_cases Commits (not row.idle_valid || not row.absolute_valid) (λ e. refused)
              (λ e. rotate_current-Outcome row record {
                reads = reads;
                csrf_matches = csrf;
                not_revoked = open_family;
                is_active = active;
                not_used = unused;
                idle_valid = ground arith;
                absolute_valid = ground arith;
              }))

    evaluate_active-Outcome :
        Commits (evaluate_active sign base64url now input row db (inactive_reason row))
    unfolding revoke_inactive
    evaluate_active-Outcome = elim (Option-cases (inactive_reason row)) [
      | inl e ↦ rw e (evaluate_live-Outcome e)
      | inr (reason, e) ↦ rw e (denied row reason reads csrf open_family e)
    ]

  evaluate_row-Outcome :
      (row : Option RefreshRow)
      → read_row now input db ≡ row
      → Commits (evaluate_row sign base64url now input db row)
  evaluate_row-Outcome none reads = refused
  evaluate_row-Outcome (some row) reads =
      if_cases Commits (not (text_eq row.csrf_digest input.presented_csrf_digest))
        (λ e. csrf_refused)
        (λ csrf.
          if_cases Commits row.revoked (λ e. refused)
            (λ open_family. evaluate_active-Outcome row reads (ground arith) open_family))

  pub rotate-Outcome : (lost : Bool) → Outcome (rotate sign base64url lost now input db)
  unfolding rotate evaluate_locked_refresh
  rotate-Outcome lost =
      if_cases Outcome lost (λ e. failed) (λ e. evaluate_row-Outcome (read_row now input db) refl)
