-- ===== src/Approvals/Agreement/Expired.antt =====
-- An expiry keeps the tables consistent, and the trigger lets it pass.
use cloud_commitment_portfol.Base.{
  ℕ, ◌≡◌, refl, sym, ◌∙◌, subst, Bool, true, ◌&&◌, some, List, map, find?, filter, any, All-weaken,
  All-each, find?-sound, any-find?, find?-any, ltb, length, if_cases,
}
use cloud_commitment_portfol.Base.Text.{Text, text_eq}
use cloud_commitment_portfol.Base.Action.{ok}
use cloud_commitment_portfol.Approvals.{
  recommendation_expired, Approval, Recommendation, Tables, transition, passes, awaits,
  is_recommendation, is_pending,
}
use cloud_commitment_portfol.Approvals.Expiry.{
  due_rows, expires, expire_recommendation, joins, set_expired, expire_due,
}
use cloud_commitment_portfol.Approvals.Updates.{updated, updated-update_approvals}
use cloud_commitment_portfol.Approvals.Agreement.{
  Agree, Agreed, Consistent, both, key-eq, is_pending-eq, untouched, Agree-awaits,
  closed-Consistent, find?-changed,
}

module _ (due : List Approval) (recommendations : List Recommendation) (now : ℕ) where
  joins-passes :
      (a : Approval) → joins due recommendations a ≡ true → passes a (set_expired now a) ≡ true
  unfolding passes transition
  joins-passes a e =
      let (p, _) = both (is_pending a.status) _ e in rw (is_pending-eq a.status p) refl

  expire_recommendation-keys :
      (x : Recommendation)
      → ((expire_recommendation due x).tenant_id ≡ x.tenant_id)
        × ((expire_recommendation due x).id ≡ x.id)
  expire_recommendation-keys x =
      if_cases (λ (y : Recommendation). (y.tenant_id ≡ x.tenant_id) × (y.id ≡ x.id)) (expires due x)
        (λ _. (refl, refl)) (λ _. (refl, refl))

  -- The recommendation that is found for a joined row is one of those that expire.
  joined-expires :
      (a : Approval) (r : Recommendation)
      → find? (is_recommendation a.tenant_id a.recommendation_id) recommendations ≡ some r
      → Agree a.status r.status
      → joins due recommendations a ≡ true
      → expires due r ≡ true
  joined-expires a r f g e =
      let (p, q) = both (is_pending a.status) _ e in
      let (r', f') =
        any-find? (λ r. expires due r && is_recommendation a.tenant_id a.recommendation_id r)
          recommendations q in
      let s =
        find?-sound (λ r. expires due r && is_recommendation a.tenant_id a.recommendation_id r)
          recommendations f' in
      let (t, k') = both (expires due r') _ s in
      let (t₁, _) =
        both (any (λ d. is_recommendation d.tenant_id d.recommendation_id r') due)
          (awaits r'.status) t in
      let (tenant', id') = key-eq a.tenant_id a.recommendation_id r' k' in
      let (tenant, id) =
        key-eq a.tenant_id a.recommendation_id r
          (find?-sound (is_recommendation a.tenant_id a.recommendation_id) recommendations f) in
      let same : any (λ d. is_recommendation d.tenant_id d.recommendation_id r) due ≡ true =
        subst (λ t. any (λ d. text_eq t d.tenant_id && text_eq r.id d.recommendation_id) due ≡ true)
          (tenant' ∙ sym tenant)
          (subst
            (λ i.
              any (λ d. text_eq r'.tenant_id d.tenant_id && text_eq i d.recommendation_id) due
              ≡ true)
            (id' ∙ sym id) t₁) in
      rw (same, Agree-awaits a.status r.status (is_pending-eq a.status p) g) refl

  -- A row that is not joined is not pending, or its recommendation stays.
  row-Agreed :
      (b : Approval)
      → Agreed recommendations b
      → Agreed
          (map (expire_recommendation due) recommendations)
          (updated (joins due recommendations) (set_expired now) b)
  row-Agreed b (r, f, g) =
      let found =
        find?-changed (expire_recommendation due) expire_recommendation-keys b.tenant_id
          b.recommendation_id recommendations f in
      if_cases (Agreed (map (expire_recommendation due) recommendations))
        (joins due recommendations b)
        (λ e. (expire_recommendation due r, found, rw (joined-expires b r f g e) refl))
        (λ e. (
          expire_recommendation due r,
          found,
          if_cases (λ (y : Recommendation). Agree b.status y.status) (expires due r)
              (λ t.
                let (_, open_row) =
                  both (any (λ d. is_recommendation d.tenant_id d.recommendation_id r) due)
                    (awaits r.status) t in
                untouched b.status r.status recommendation_expired g open_row (λ waits.
                  let k =
                    find?-sound (is_recommendation b.tenant_id b.recommendation_id) recommendations
                      f in
                  let q =
                    find?-any (is_recommendation b.tenant_id b.recommendation_id)
                      (λ r. expires due r && is_recommendation b.tenant_id b.recommendation_id r)
                      recommendations f (rw (t, k) refl) in
                  let clash : joins due recommendations b ≡ true = rw (waits, q) refl in cc))
              (λ _. g),
        ))

-- What an expiry returns and leaves: it never throws.
pub expire_due-updates :
    (locked : Text → Bool) (now limit : ℕ) (w : Tables) (due : List Approval)
    → due_rows locked now limit w.approvals ≡ due
    → let rows = filter (joins due w.recommendations) w.approvals in
      expire_due locked now limit w ≡ (
        ok (record {
          processed = ltb 0 (length rows);
          approval_ids = map (λ a. a.id) rows;
          recommendation_ids = map (λ a. a.recommendation_id) rows;
        }),
        record {
          approvals = map (updated (joins due w.recommendations) (set_expired now)) w.approvals;
          recommendations = map (expire_recommendation due) w.recommendations;
        },
      )
unfolding expire_due
expire_due-updates locked now limit w due e = rw e (
    rw
      (updated-update_approvals (joins due w.recommendations) (set_expired now) w.approvals
        (All-each (joins-passes due w.recommendations now) w.approvals))
      refl)

-- An expiry keeps the tables consistent.
pub expire_due-Consistent :
    (locked : Text → Bool) (now limit : ℕ) (w : Tables)
    → Consistent w
    → Consistent (expire_due locked now limit w).1
expire_due-Consistent locked now limit w h =
    let due = due_rows locked now limit w.approvals in
    rw (expire_due-updates locked now limit w due refl) (
      closed-Consistent w h (joins due w.recommendations) (set_expired now) (λ x. refl) (λ x. refl)
        (map (expire_recommendation due) w.recommendations)
        (All-weaken (row-Agreed due w.recommendations now) w.approvals h.agreed))
