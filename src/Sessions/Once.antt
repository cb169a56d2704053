-- ===== src/Sessions/Once.antt =====
-- A refresh token is exchanged once, and never after its family is revoked: over every sequence of
-- rotations, logins, logouts and changes of accounts.
use cloud_commitment_portfol.Base.{
  ℕ, ◌+◌, ◌≤◌, ◌≡◌, ◌∙◌, refl, sym, ap, subst, Bool, true, false, ◌&&◌, ◌==◌, Option, some, List,
  [], ◌∷◌, find?-map, if◌then◌else◌, if_cases, Bool-cases, some_inj, inl, inr, arith,
}
use cloud_commitment_portfol.Base.Text.{Text, text_eq, text_eq_iff}
use cloud_commitment_portfol.Base.Action.{Result, ok, throw}
use cloud_commitment_portfol.Sessions.{
  Token, User, Tenant, Credential, Database, AuthError, is_null, use_row, mark_used, usable,
}
use cloud_commitment_portfol.Sessions.Refresh.{
  Claims, RotateInput, RefreshResult, issued, invalid, csrf_invalid, inactive, RefreshRow,
  refresh_row, read_refresh, child_token, mark_used_and_insert_child, rotate,
}
use cloud_commitment_portfol.Sessions.Login.{LoginInput, issue_login}
use cloud_commitment_portfol.Sessions.Logout.{LogoutInput, logout}
use cloud_commitment_portfol.Sessions.Outcome.{
  Rows, read_refresh-Rows, Rotates, Outcome, failed, csrf_refused, refused, denied, reused, rotated,
  rotate-Outcome,
}
use cloud_commitment_portfol.Sessions.Settled.{
  is_used, is_revoked, Spent, Revoked, use_row-digest, Spent-stable,
}
use cloud_commitment_portfol.Sessions.Stable.{
  with_accounts, IsStable, insert_token-stable, rotate-stable, issue_login-stable, logout-stable,
}

-- What may happen to the rows, one transaction after the other; `lost` tells whether the connection
-- is lost, and the accounts may change in any way.
pub data Event : Type 0 where
  rotates : (lost : Bool) → ℕ → RotateInput → Event
  logs_in : (lost : Bool) → ℕ → LoginInput → Event
  logs_out : (lost : Bool) → ℕ → LogoutInput → Event
  accounts_change : List Tenant → List User → List Credential → Event

abbrev pub is_issued : Result AuthError RefreshResult → Bool
is_issued (ok (issued issue)) = true
is_issued (ok invalid) = false
is_issued (ok csrf_invalid) = false
is_issued (ok (inactive reason)) = false
is_issued (throw e) = false

abbrev pub of_digest : Text → RotateInput → Bool
of_digest digest input = text_eq input.presented_digest digest

abbrev pub of_family : Text → RotateInput → Bool
of_family id input = text_eq input.family_id id

both : (a b : Bool) → a && b ≡ true → (a ≡ true) × (b ≡ true)
both true b h = (refl, h)
both false b h = absurd (cc)

-- What is read of a spent digest is used, what is read of a revoked family revoked.
module _ (now : ℕ) (input : RotateInput) (db : Database) where
  Spent-used :
      Spent input.presented_digest db
      → (row : RefreshRow) → read_refresh now input.family_id input.presented_digest db ≡ some row
      → row.used ≡ false
      → ⊥
  unfolding refresh_row
  Spent-used h row reads unused =
      let r = read_refresh-Rows now input.family_id input.presented_digest db row reads in
      let same : h.row ≡ r.token = some_inj (sym h.found ∙ r.found_token) in
      let used : is_used r.token ≡ true = subst (λ t. is_used t ≡ true) same h.is_done in
      let unused' : is_used r.token ≡ false = ap (λ (x : RefreshRow). x.used) r.is_row ∙ unused in
      cc

  Revoked-seen :
      Revoked input.family_id db
      → (row : RefreshRow) → read_refresh now input.family_id input.presented_digest db ≡ some row
      → row.revoked ≡ false
      → ⊥
  unfolding refresh_row
  Revoked-seen h row reads open_family =
      let r = read_refresh-Rows now input.family_id input.presented_digest db row reads in
      let same : h.row ≡ r.family = some_inj (sym h.found ∙ r.found_family) in
      let shut : is_revoked r.family ≡ true = subst (λ f. is_revoked f ≡ true) same h.is_done in
      let shut' : is_revoked r.family ≡ false =
        ap (λ (x : RefreshRow). x.revoked) r.is_row ∙ open_family in
      cc

  use_row-uses : (t : Token) → is_used (use_row t.id now t) ≡ true
  unfolding use_row
  use_row-uses t =
      if_cases (λ (r : Token). is_used r ≡ true) (text_eq t.id t.id && is_null t.used_at)
        (λ e. refl) (λ e. let itself = (text_eq_iff t.id t.id).1 refl in ground arith)

  child-Spent :
      (row : RefreshRow) (after : Database)
      → read_refresh now input.family_id input.presented_digest db ≡ some row
      → mark_used_and_insert_child now input row db ≡ some after
      → Spent input.presented_digest after
  unfolding mark_used_and_insert_child refresh_row
  child-Spent row after reads =
      if_cases (λ (o : Option Database). o ≡ some after → Spent input.presented_digest after)
        (usable row.token_id db == 1)
        (λ e inserted.
          insert_token-stable (Spent input.presented_digest) (Spent-stable input.presented_digest)
            now (child_token now input row) (mark_used row.token_id now db) inserted marked)
        (λ e h. absurd (cc))
    where
      r : Rows now input.family_id input.presented_digest db row
      r = read_refresh-Rows now input.family_id input.presented_digest db row reads

      same_id : r.token.id ≡ row.token_id
      same_id = ap (λ (x : RefreshRow). x.token_id) r.is_row

      marked : Spent input.presented_digest (mark_used row.token_id now db)
      marked = record {
        row = use_row row.token_id now r.token;
        found =
            find?-map (λ t. text_eq t.token_digest input.presented_digest)
              (use_row row.token_id now)
              (λ t. ap (λ d. text_eq d input.presented_digest) (use_row-digest row.token_id now t))
              db.tokens r.found_token;
        is_done =
            subst (λ id. is_used (use_row id now r.token) ≡ true) same_id (use_row-uses r.token);
      }

module _ (sign : Claims → Text) (base64url : Text → Text) where
  abbrev pub step : Event → Database → Database
  step (rotates lost now input) db = (rotate sign base64url lost now input db).1
  step (logs_in lost now input) db = (issue_login sign base64url lost now input db).1
  step (logs_out lost now input) db = (logout lost now input db).1
  step (accounts_change tenants users credentials) db = with_accounts tenants users credentials db

  abbrev pub exchanges_at : (RotateInput → Bool) → Event → Database → Bool
  exchanges_at chosen (rotates lost now input) db =
      chosen input && is_issued (rotate sign base64url lost now input db).0
  exchanges_at chosen (logs_in lost now input) db = false
  exchanges_at chosen (logs_out lost now input) db = false
  exchanges_at chosen (accounts_change tenants users credentials) db = false

  -- How many of the chosen rotations issue a session.
  abbrev pub exchanges : (RotateInput → Bool) → List Event → Database → ℕ
  exchanges chosen [] db = 0
  exchanges chosen (e ∷ es) db =
      (if exchanges_at chosen e db then 1 else 0) + exchanges chosen es (step e db)

  pub step-stable :
      (P : Database → Type 0) → IsStable P → (e : Event) (db : Database) → P db → P (step e db)
  step-stable P stable (rotates lost now input) db p =
      rotate-stable P stable sign base64url lost now input db p
  step-stable P stable (logs_in lost now input) db p =
      issue_login-stable P stable db p sign base64url lost now input
  step-stable P stable (logs_out lost now input) db p = logout-stable P stable db p lost now input
  step-stable P stable (accounts_change tenants users credentials) db p =
      stable.keeps_accounts tenants users credentials db p

  -- Where a stable property keeps the chosen rotations from issuing, they never issue.
  pub exchanges-none :
      (P : Database → Type 0) (chosen : RotateInput → Bool)
      → IsStable P
      → ((e : Event) (db : Database) → P db → exchanges_at chosen e db ≡ false)
      → (es : List Event) (db : Database) → P db
      → exchanges chosen es db ≡ 0
  exchanges-none P chosen stable blocks [] db p = refl
  exchanges-none P chosen stable blocks (e ∷ es) db p = rw (blocks e db p) (
      omega
        (arith, exchanges-none P chosen stable blocks es (step e db) (step-stable P stable e db p)))

  -- An issue comes from an unused token of an unrevoked family.
  Rotates-blocked :
      (now : ℕ) (input : RotateInput) (db : Database)
      → ((row : RefreshRow) → Rotates sign base64url now input db row → ⊥)
      → (lost : Bool) → is_issued (rotate sign base64url lost now input db).0 ≡ false
  Rotates-blocked now input db blocks lost =
      go (rotate sign base64url lost now input db) (rotate-Outcome sign base64url now input db lost)
    where
      go :
          (r : Result AuthError RefreshResult × Database)
          → Outcome sign base64url now input db r
          → is_issued r.0 ≡ false
      go r failed = refl
      go r csrf_refused = refl
      go r refused = refl
      go r (denied row reason _ _ _ _) = refl
      go r (reused row _ _ _ _ _) = refl
      go r (rotated row after h _) = absurd (blocks row h)

  Spent-blocks :
      (digest : Text) (e : Event) (db : Database)
      → Spent digest db
      → exchanges_at (of_digest digest) e db ≡ false
  Spent-blocks digest (rotates lost now input) db h =
      elim (Bool-cases (text_eq input.presented_digest digest)) [
        | inl e ↦
            let p : input.presented_digest ≡ digest =
              (text_eq_iff input.presented_digest digest).0 e in
            rw
              (Rotates-blocked now input db
                (λ row r.
                  Spent-used now input db (subst (λ d. Spent d db) (sym p) h) row r.reads
                    r.not_used)
                lost)
              (ground arith)
        | inr e ↦ rw e refl
      ]
  Spent-blocks digest (logs_in lost now input) db h = refl
  Spent-blocks digest (logs_out lost now input) db h = refl
  Spent-blocks digest (accounts_change tenants users credentials) db h = refl

  pub Revoked-blocks :
      (id : Text) (e : Event) (db : Database)
      → Revoked id db
      → exchanges_at (of_family id) e db ≡ false
  Revoked-blocks id (rotates lost now input) db h = elim (Bool-cases (text_eq input.family_id id)) [
    | inl e ↦
        let p : input.family_id ≡ id = (text_eq_iff input.family_id id).0 e in
        rw
          (Rotates-blocked now input db
            (λ row r.
              Revoked-seen now input db (subst (λ i. Revoked i db) (sym p) h) row r.reads
                r.not_revoked)
            lost)
          (ground arith)
    | inr e ↦ rw e refl
  ]
  Revoked-blocks id (logs_in lost now input) db h = refl
  Revoked-blocks id (logs_out lost now input) db h = refl
  Revoked-blocks id (accounts_change tenants users credentials) db h = refl

  issue-Spent :
      (now : ℕ) (input : RotateInput) (db : Database)
      (r : Result AuthError RefreshResult × Database)
      → Outcome sign base64url now input db r
      → is_issued r.0 ≡ true
      → Spent input.presented_digest r.1
  issue-Spent now input db r failed h = absurd (cc)
  issue-Spent now input db r csrf_refused h = absurd (cc)
  issue-Spent now input db r refused h = absurd (cc)
  issue-Spent now input db r (denied row reason _ _ _ _) h = absurd (cc)
  issue-Spent now input db r (reused row _ _ _ _ _) h = absurd (cc)
  issue-Spent now input db r (rotated row after rotates_ inserted) h =
      child-Spent now input db row after rotates_.reads inserted

  exchange-Spent :
      (digest : Text) (e : Event) (db : Database)
      → exchanges_at (of_digest digest) e db ≡ true
      → Spent digest (step e db)
  exchange-Spent digest (rotates lost now input) db h =
      let (mine, yields) =
        both (text_eq input.presented_digest digest)
          (is_issued (rotate sign base64url lost now input db).0) h in
      subst (λ d. Spent d (step (rotates lost now input) db))
        ((text_eq_iff input.presented_digest digest).0 mine)
        (issue-Spent now input db (rotate sign base64url lost now input db)
          (rotate-Outcome sign base64url now input db lost) yields)
  exchange-Spent digest (logs_in lost now input) db h = absurd (cc)
  exchange-Spent digest (logs_out lost now input) db h = absurd (cc)
  exchange-Spent digest (accounts_change tenants users credentials) db h = absurd (cc)

  -- In every sequence of rotations, logins, logouts and changes of accounts, from any rows, at most
  -- one rotation that presents a given refresh token issues a session.
  pub exchanges-once :
      (digest : Text) (es : List Event) (db : Database) → exchanges (of_digest digest) es db ≤ 1
  exchanges-once digest [] db = omega arith
  exchanges-once digest (e ∷ es) db = elim (Bool-cases (exchanges_at (of_digest digest) e db)) [
    | inl h ↦
        let none_left : exchanges (of_digest digest) es (step e db) ≡ 0 =
          exchanges-none (Spent digest) (of_digest digest) (Spent-stable digest)
            (Spent-blocks digest) es (step e db) (exchange-Spent digest e db h) in
        rw (h, none_left) (omega arith)
    | inr h ↦ rw h (omega (arith, exchanges-once digest es (step e db)))
  ]
