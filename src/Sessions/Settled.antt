-- ===== src/Sessions/Settled.antt =====
-- The tokens that were used and the families that were revoked, and that both stay so.
use cloud_commitment_portfol.Base.{
  ℕ, ◌≡◌, refl, ap, Bool, true, not, ◌&&◌, some, List, [], ◌∷◌, ◌++◌, map, find?, find?-append,
  find?-map, if_cases,
}
use cloud_commitment_portfol.Base.Text.{Text, text_eq}
use cloud_commitment_portfol.Sessions.{
  RevocationReason, Family, Token, Database, is_null, revoke_row, use_row,
}
use cloud_commitment_portfol.Sessions.Stable.{IsStable}

abbrev pub is_used : Token → Bool
is_used t = not (is_null t.used_at)

abbrev pub is_revoked : Family → Bool
is_revoked f = not (is_null f.revoked)

-- The first row of a table that passes a test has gone through what is never undone.
pub record Settled {A : Type 0} (p done : A → Bool) (rows : List A) : Type 0 where
  pub row : A
  pub found : find? p rows ≡ some row
  pub is_done : done row ≡ true

module _ {A : Type 0} (p done : A → Bool) where
  Settled-append : (rows new : List A) → Settled p done rows → Settled p done (rows ++ new)
  Settled-append rows new h = record {
    row = h.row;
    found = find?-append p rows new h.found;
    is_done = h.is_done;
  }

  Settled-map :
      (f : A → A)
      → ((x : A) → p (f x) ≡ p x)
      → ((x : A) → done x ≡ true → done (f x) ≡ true)
      → (rows : List A) → Settled p done rows
      → Settled p done (map f rows)
  Settled-map f keeps_p keeps_done rows h = record {
    row = f h.row;
    found = find?-map p f keeps_p rows h.found;
    is_done = keeps_done h.row h.is_done;
  }

-- The token of a digest was used.
abbrev pub Spent : Text → Database → Type 0
Spent digest db = Settled (λ (t : Token). text_eq t.token_digest digest) is_used db.tokens

-- The family was revoked.
abbrev pub Revoked : Text → Database → Type 0
Revoked id db = Settled (λ (f : Family). text_eq f.id id) is_revoked db.families

pub use_row-digest :
    (id : Text) (now : ℕ) (t : Token) → (use_row id now t).token_digest ≡ t.token_digest
unfolding use_row
use_row-digest id now t =
    if_cases (λ (r : Token). r.token_digest ≡ t.token_digest) (text_eq t.id id && is_null t.used_at)
      (λ e. refl) (λ e. refl)

pub use_row-is_used :
    (id : Text) (now : ℕ) (t : Token) → is_used t ≡ true → is_used (use_row id now t) ≡ true
unfolding use_row
use_row-is_used id now t h =
    if_cases (λ (r : Token). is_used r ≡ true) (text_eq t.id id && is_null t.used_at) (λ e. refl)
      (λ e. h)

pub Spent-stable : (digest : Text) → IsStable (Spent digest)
Spent-stable digest = record {
  keeps_use = λ id now db h.
      Settled-map (λ t. text_eq t.token_digest digest) is_used (use_row id now)
        (λ t. ap (λ d. text_eq d digest) (use_row-digest id now t)) (use_row-is_used id now)
        db.tokens h;
  keeps_revocation = λ id now reason db h. h;
  keeps_token = λ new db h.
      Settled-append (λ t. text_eq t.token_digest digest) is_used db.tokens (new ∷ []) h;
  keeps_family = λ new db h. h;
  keeps_audit = λ entry db h. h;
  keeps_accounts = λ tenants users credentials db h. h;
}

pub revoke_row-id :
    (id : Text) (now : ℕ) (reason : RevocationReason) (f : Family)
    → (revoke_row id now reason f).id ≡ f.id
unfolding revoke_row
revoke_row-id id now reason f =
    if_cases (λ (r : Family). r.id ≡ f.id) (text_eq f.id id && is_null f.revoked) (λ e. refl)
      (λ e. refl)

pub revoke_row-is_revoked :
    (id : Text) (now : ℕ) (reason : RevocationReason) (f : Family)
    → is_revoked f ≡ true
    → is_revoked (revoke_row id now reason f) ≡ true
unfolding revoke_row
revoke_row-is_revoked id now reason f h =
    if_cases (λ (r : Family). is_revoked r ≡ true) (text_eq f.id id && is_null f.revoked)
      (λ e. refl) (λ e. h)

pub Revoked-stable : (id : Text) → IsStable (Revoked id)
Revoked-stable id = record {
  keeps_use = λ token_id now db h. h;
  keeps_revocation = λ other now reason db h.
      Settled-map (λ f. text_eq f.id id) is_revoked (revoke_row other now reason)
        (λ f. ap (λ i. text_eq i id) (revoke_row-id other now reason f))
        (revoke_row-is_revoked other now reason) db.families h;
  keeps_token = λ new db h. h;
  keeps_family =
      λ new db h. Settled-append (λ f. text_eq f.id id) is_revoked db.families (new ∷ []) h;
  keeps_audit = λ entry db h. h;
  keeps_accounts = λ tenants users credentials db h. h;
}
