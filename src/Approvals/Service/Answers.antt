-- ===== src/Approvals/Service/Answers.antt =====
-- What a decision answers, on tables that are consistent.
use cloud_commitment_portfol.Base.{
  ℕ, ◌≡◌, refl, sym, ap, subst, ◌⊎◌, inl, inr, Option, none, some, map, find?, find?-sound,
  All-find?, Bool-cases, Option-cases, Bool, true, if_cases,
}
use cloud_commitment_portfol.Base.Text.{Text, text_eq, text_eq_iff}
use cloud_commitment_portfol.Base.Json.{Json}
use cloud_commitment_portfol.Base.Action.{Result, ok, throw}
use cloud_commitment_portfol.Approvals.{
  Approval, Recommendation, Tables, Decision, approve, reject, ApprovalError,
  approval_state_invalid, update_approvals, is_approval, is_recommendation, get_approval,
  get_recommendation, decided_status, decided_recommendation, decide_recommendation, set_decision,
  is_pending, decide,
}
use cloud_commitment_portfol.Approvals.Lifecycle.{find?-update_approvals}
use cloud_commitment_portfol.Approvals.Agreement.{Agree, Agreed, Consistent, both}
use cloud_commitment_portfol.Approvals.Agreement.Decided.{decide-Consistent}
use cloud_commitment_portfol.Approvals.Input.{Engine, parse_approval_decision_body}
use cloud_commitment_portfol.Approvals.Service.{
  ServiceError, validation_error, state_invalid, missing, approvals_unavailable, ApprovalDetail,
  decide_approval, Reply, answers, rolled_back, unacknowledged, transact, answered,
}

-- A decision that went through: the row that it returned is the one that is there.
record Decided (tenant_id id : Text) (d : Decision) (a : Approval) (after : Tables) : Type 0 where
  decided : a.status ≡ decided_status d
  of_tenant : a.tenant_id ≡ tenant_id
  stored : get_approval tenant_id id after.approvals ≡ some a

decide-cases :
    (tenant_id id reason : Text) (decision : Decision) (now : ℕ) (w : Tables)
    → (decide tenant_id id reason decision now w ≡ (throw approval_state_invalid, w))
      ⊎ (decide tenant_id id reason decision now w ≡ (ok none, w))
      ⊎ ((a : Approval) × (after : Tables) × (decide tenant_id id reason decision now w
            ≡ (ok (some a), after))
          × Decided tenant_id id decision a after)
unfolding decide get_approval
decide-cases tenant_id id reason decision now w =
    let matches = is_approval tenant_id id in
    let change = set_decision decision reason now in
    elim (Option-cases (find? matches w.approvals)) [
      | inl f ↦ inr (inl (rw f refl))
      | inr (r, f) ↦ elim (Bool-cases (is_pending r.status)) [
        | inr p ↦ inl (rw (f, p) refl)
        | inl p ↦ elim (Option-cases (update_approvals matches change w.approvals)) [
          | inl u ↦ inl (rw (f, p, u) refl)
          | inr (rows, u) ↦
              let stored : find? matches rows ≡ some (change r) =
                find?-update_approvals matches change (λ q. refl) w.approvals u f in
              let after : Tables = record {
                approvals = rows;
                recommendations =
                    map
                      (decide_recommendation tenant_id r.recommendation_id
                        (decided_recommendation decision))
                      w.recommendations;
              } in
              let key =
                (both (text_eq r.tenant_id tenant_id) (text_eq r.id id)
                  (find?-sound matches w.approvals f)).0 in
              inr (
                inr (
                  change r,
                  after,
                  rw (f, p, u, stored) refl,
                  record {
                    decided = refl;
                    of_tenant = (text_eq_iff r.tenant_id tenant_id).0 key;
                    stored = stored;
                  },
                ))
        ]
      ]
    ]

Agree-decided :
    (decision : Decision) (a : Approval) (r : Recommendation)
    → a.status ≡ decided_status decision
    → Agree a.status r.status
    → r.status ≡ decided_recommendation decision
unfolding decided_status decided_recommendation
Agree-decided approve a r e g = subst (λ s. Agree s r.status) e g
Agree-decided reject a r e g = subst (λ s. Agree s r.status) e g

module _ (tenant_id : Text) (decision : Decision) (reply : Reply) (read_fails : Bool)
    (w : Tables) where
  -- An approval and its recommendation, both with the status that was decided, as they stand in the
  -- tables.
  pub record Stored (stored : ApprovalDetail) (after : Tables) : Type 0 where
    pub approval_decided : stored.approval.status ≡ decided_status decision
    pub recommendation_decided : stored.recommendation.status ≡ decided_recommendation decision
    pub approval_there :
        get_approval tenant_id stored.approval.id after.approvals ≡ some stored.approval
    pub recommendation_there :
        get_recommendation tenant_id stored.approval.recommendation_id after.recommendations
        ≡ some stored.recommendation

  pub data Answers : Result ServiceError ApprovalDetail × Tables → Type 0 where
    refused : (error : ServiceError) → Answers (throw error, w)
    replied :
        (answer : ApprovalDetail) (after : Tables)
        → Stored answer after
        → Answers (ok answer, after)
    lost :
        (stored : ApprovalDetail) (after : Tables)
        → Stored stored after
        → (reply ≡ unacknowledged) ⊎ (read_fails ≡ true)
        → Answers (throw approvals_unavailable, after)

  -- What comes of an error or of an approval that is not there, however the calls end.
  unchanged-Answers :
      (given : Reply) (result : Result ApprovalError (Option Approval))
      → (result ≡ throw approval_state_invalid) ⊎ (result ≡ ok none)
      → Answers (answered tenant_id read_fails (transact given w (result, w)))
  unchanged-Answers answers result (inl e) = rw e (refused state_invalid)
  unchanged-Answers answers result (inr e) = rw e (refused missing)
  unchanged-Answers rolled_back result h = refused approvals_unavailable
  unchanged-Answers unacknowledged result h = refused approvals_unavailable

  decided-Answers :
      (given : Reply) (stored : ApprovalDetail) (after : Tables)
      → reply ≡ given
      → Stored stored after
      → Answers
          (answered tenant_id read_fails (transact given w (ok (some stored.approval), after)))
  unfolding get_recommendation
  decided-Answers answers stored after e h =
      if_cases (λ (r : Result ServiceError ApprovalDetail). Answers (r, after)) read_fails
        (λ f. lost stored after h (inr f))
        (λ f. let there = h.recommendation_there in rw there (replied stored after h))
  decided-Answers rolled_back stored after e h = refused approvals_unavailable
  decided-Answers unacknowledged stored after e h = lost stored after h (inl e)

-- The rows that a decision left, on tables that were consistent.
decide-Stored :
    (tenant_id id reason : Text) (decision : Decision) (now : ℕ) (reply : Reply) (read_fails : Bool)
    (w after : Tables) (a : Approval)
    → Consistent w
    → decide tenant_id id reason decision now w ≡ (ok (some a), after)
    → Decided tenant_id id decision a after
    → (r : Recommendation) × Stored tenant_id decision reply read_fails w
        (record { approval = a; recommendation = r })
        after
unfolding get_recommendation get_approval
decide-Stored tenant_id id reason decision now reply read_fails w after a h k done =
    let after_ok : Consistent after =
      subst Consistent (ap (λ (q : Result ApprovalError (Option Approval) × Tables). q.1) k)
        (decide-Consistent tenant_id id reason decision now w h) in
    let (r, g, agree) =
      All-find? (Agreed after.recommendations) (is_approval tenant_id id) after.approvals
        after_ok.agreed done.stored in
    let key =
      (both (text_eq a.tenant_id tenant_id) (text_eq a.id id)
        (find?-sound (is_approval tenant_id id) after.approvals done.stored)).1 in
    (
      r,
      record {
        approval_decided = done.decided;
        recommendation_decided = Agree-decided decision a r done.decided agree;
        approval_there =
            subst (λ i. find? (is_approval tenant_id i) after.approvals ≡ some a)
              (sym ((text_eq_iff a.id id).0 key)) done.stored;
        recommendation_there =
            subst
              (λ t. find? (is_recommendation t a.recommendation_id) after.recommendations ≡ some r)
              done.of_tenant g;
      },
    )

-- On consistent tables a decision answers an error and has changed nothing, or it answers the
-- approval and its recommendation, both with the status that was decided, as they then stand in the
-- tables; or it has stored both and answers that approvals are unavailable, and then only since the
-- answer to its COMMIT was lost or the query after it failed.
pub decide_approval-Answers :
    (e : Engine) (tenant_id : Text) (decision : Decision) (now : ℕ) (id body : Json) (reply : Reply)
    (read_fails : Bool) (w : Tables)
    → Consistent w
    → Answers tenant_id decision reply read_fails w
        (decide_approval e tenant_id decision now id body reply read_fails w)
unfolding decide_approval
decide_approval-Answers e tenant_id decision now id body reply read_fails w h =
    elim (Option-cases (parse_approval_decision_body e id body)) [
      | inl f ↦ rw f (refused validation_error)
      | inr (input, f) ↦
          elim (decide-cases tenant_id input.approval_id input.decision_reason decision now w) [
            | inl k ↦
                rw (f, k)
                  (unchanged-Answers tenant_id decision reply read_fails w reply
                    (throw approval_state_invalid) (inl refl))
            | inr (inl k) ↦
                rw (f, k)
                  (unchanged-Answers tenant_id decision reply read_fails w reply (ok none)
                    (inr refl))
            | inr (inr (a, after, k, done)) ↦
                let (r, rows) =
                  decide-Stored tenant_id input.approval_id input.decision_reason decision now reply
                    read_fails w after a h k done in
                rw (f, k)
                  (decided-Answers tenant_id decision reply read_fails w reply
                    (record { approval = a; recommendation = r }) after refl rows)
          ]
    ]
