-- ===== src/Sessions/Reuse.antt =====
-- The answer to a reused token: the family is revoked, and issues nothing any more.
use cloud_commitment_portfol.Base.{
  ℕ, ◌≡◌, ◌∙◌, refl, sym, ap, subst, true, false, ◌&&◌, none, some, List, find?-map, find?-sound,
  if_cases, arith,
}
use cloud_commitment_portfol.Base.Text.{Text, text_eq, text_eq_iff}
use cloud_commitment_portfol.Base.Action.{Result, ok}
use cloud_commitment_portfol.Sessions.{
  RevocationReason, reuse_detected, Family, Database, is_null, find_family, revoke_row,
  revoke_family, revocable, refresh_reuse_detected, audited, AuthError,
}
use cloud_commitment_portfol.Sessions.Refresh.{
  Claims, RotateInput, RefreshResult, invalid, RefreshRow, refresh_row, read_refresh,
  inactive_reason, revoke_reuse, evaluate_locked_refresh, rotate,
}
use cloud_commitment_portfol.Sessions.Outcome.{read_refresh-Rows}
use cloud_commitment_portfol.Sessions.Settled.{is_revoked, Revoked, Revoked-stable, revoke_row-id}
use cloud_commitment_portfol.Sessions.Once.{
  Event, rotates, step, exchanges, of_family, exchanges-none, Revoked-blocks,
}

revoke_row-revokes :
    (now : ℕ) (reason : RevocationReason) (f : Family)
    → is_revoked (revoke_row f.id now reason f) ≡ true
unfolding revoke_row
revoke_row-revokes now reason f =
    if_cases (λ (r : Family). is_revoked r ≡ true) (text_eq f.id f.id && is_null f.revoked)
      (λ e. refl) (λ e. let itself = (text_eq_iff f.id f.id).1 refl in ground arith)

revoke_family-Revoked :
    (id : Text) (now : ℕ) (reason : RevocationReason) (db : Database) (f : Family)
    → find_family id db ≡ some f
    → Revoked id (revoke_family id now reason db)
revoke_family-Revoked id now reason db f found =
    let p : f.id ≡ id =
      (text_eq_iff f.id id).0 (find?-sound (λ (x : Family). text_eq x.id id) db.families found) in
    record {
      row = revoke_row id now reason f;
      found =
          find?-map (λ x. text_eq x.id id) (revoke_row id now reason)
            (λ x. ap (λ i. text_eq i id) (revoke_row-id id now reason x)) db.families found;
      is_done =
          subst (λ i. is_revoked (revoke_row i now reason f) ≡ true) p
            (revoke_row-revokes now reason f);
    }

module _ (sign : Claims → Text) (base64url : Text → Text) (now : ℕ) (input : RotateInput)
    (db : Database) (row : RefreshRow)
    (reads : read_refresh now input.family_id input.presented_digest db ≡ some row) where
  same_family : input.family_id ≡ row.family_id
  unfolding refresh_row
  same_family =
      let r = read_refresh-Rows now input.family_id input.presented_digest db row reads in
      sym (
        (text_eq_iff r.family.id input.family_id).0
          (find?-sound (λ (x : Family). text_eq x.id input.family_id) db.families r.found_family))
      ∙ ap (λ (x : RefreshRow). x.family_id) r.is_row

  rotate-reused :
      text_eq row.csrf_digest input.presented_csrf_digest ≡ true
      → row.revoked ≡ false
      → inactive_reason row ≡ none
      → row.used ≡ true
      → revocable row.family_id db ≡ 1
      → rotate sign base64url false now input db ≡ (
        ok invalid,
        audited
            (refresh_reuse_detected row.tenant_id row.user_id input.request_id)
            (revoke_family row.family_id now reuse_detected db),
      )
  unfolding rotate evaluate_locked_refresh revoke_reuse
  rotate-reused csrf open_family active used one =
      rw (reads, csrf, open_family, active, used, one) refl

  -- A rotation that presents a used token of an active account, with the csrf secret of that token,
  -- ends its family: no rotation of the family issues a session in any sequence of transactions that
  -- follows. The family is one row, and not revoked before.
  pub exchanges-after_reuse :
      text_eq row.csrf_digest input.presented_csrf_digest ≡ true
      → row.revoked ≡ false
      → inactive_reason row ≡ none
      → row.used ≡ true
      → revocable row.family_id db ≡ 1
      → (es : List Event)
      → exchanges sign base64url
          (of_family input.family_id)
          es
          (step sign base64url (rotates false now input) db)
        ≡ 0
  exchanges-after_reuse csrf open_family active used one es =
      let r = read_refresh-Rows now input.family_id input.presented_digest db row reads in
      let revoked : Revoked input.family_id (revoke_family row.family_id now reuse_detected db) =
        rw (sym same_family)
          (revoke_family-Revoked input.family_id now reuse_detected db r.family r.found_family) in
      exchanges-none sign base64url (Revoked input.family_id) (of_family input.family_id)
        (Revoked-stable input.family_id) (Revoked-blocks sign base64url input.family_id) es _
        (subst (λ (x : Result AuthError RefreshResult × Database). Revoked input.family_id x.1)
          (sym (rotate-reused csrf open_family active used one))
          ((Revoked-stable input.family_id).keeps_audit
            (refresh_reuse_detected row.tenant_id row.user_id input.request_id)
            (revoke_family row.family_id now reuse_detected db) revoked))
