-- ===== src/Approvals/Lifecycle.antt =====
-- What the trigger makes of the statements on approvals.
use cloud_commitment_portfol.Base.{
  ℕ, ◌≡◌, ◌∙◌, refl, sym, ap, ◌⊎◌, inl, inr, Bool, true, false, Option, none, some, List, [], ◌∷◌,
  find?, any, Bool-cases, Option-cases, >>=-eq-some, some_inj, arith,
}
use cloud_commitment_portfol.Base.Text.{Text}
use cloud_commitment_portfol.Base.Action.{Result, ok, throw}
use cloud_commitment_portfol.Approvals.{
  ApprovalStatus, queued, pending, approved, rejected, expired, failed, Approval, Tables,
  transition, passes, update_one, update_approvals, is_approval, get_approval, Decision, approve,
  reject, ApprovalError, approval_state_invalid, decided_status, set_decision, decide, unmarked,
  set_workflow_execution_id, is_pending,
}

transition_same : (s : ApprovalStatus) → transition s s ≡ false
unfolding transition
transition_same queued = refl
transition_same pending = refl
transition_same approved = refl
transition_same rejected = refl
transition_same expired = refl
transition_same failed = refl

-- An UPDATE that keeps the status changes no row: it fails where a row matches.
same_status-update :
    (matches : Approval → Bool) (change : Approval → Approval)
    → ((r : Approval) → (change r).status ≡ r.status)
    → (rows : List Approval)
    → ((any matches rows ≡ true) × (update_approvals matches change rows ≡ none))
      ⊎ ((any matches rows ≡ false) × (update_approvals matches change rows ≡ some rows))
unfolding update_approvals update_one passes
same_status-update matches change keeps [] = inr (refl, refl)
same_status-update matches change keeps (r ∷ rows) =
    let stays : transition r.status (change r).status ≡ false =
      ap (transition r.status) (keeps r) ∙ transition_same r.status in
    elim (Bool-cases (matches r)) [
      | inl e ↦ inl (ground arith, rw (e, stays) refl)
      | inr e ↦ elim (same_status-update matches change keeps rows) [
        | inl (some_match, fails) ↦ inl (ground arith, rw (e, fails) refl)
        | inr (no_match, same) ↦ inr (ground arith, rw (e, same) refl)
      ]
    ]

-- The mark of a workflow execution never reaches the table: where the tenant has the approval and
-- it has no mark, whatever its status, the trigger raises; where not, nothing changes.
pub set_workflow_execution_id-never_sets :
    (tenant_id id execution_id : Text) (rows : List Approval)
    → ((any (unmarked tenant_id id) rows ≡ true)
        × (set_workflow_execution_id tenant_id id execution_id rows ≡ none))
      ⊎ ((any (unmarked tenant_id id) rows ≡ false)
          × (set_workflow_execution_id tenant_id id execution_id rows ≡ some rows))
unfolding set_workflow_execution_id
set_workflow_execution_id-never_sets tenant_id id execution_id rows =
    same_status-update (unmarked tenant_id id) _ (λ r. refl) rows

-- An UPDATE that keeps its own condition leaves the first matching row in its place.
pub find?-update_approvals :
    (matches : Approval → Bool) (change : Approval → Approval)
    → ((r : Approval) → matches (change r) ≡ matches r)
    → (rows : List Approval) {rows' : List Approval} {r : Approval}
    → update_approvals matches change rows ≡ some rows'
    → find? matches rows ≡ some r
    → find? matches rows' ≡ some (change r)
unfolding update_approvals update_one
find?-update_approvals matches change keeps [] h f = absurd (cc)
find?-update_approvals matches change keeps (q ∷ rows) {rows'} {r} h f =
    let (new, e, h₁) = >>=-eq-some (update_one matches change q) _ h in
    let (rest, k, h₂) = >>=-eq-some (update_approvals matches change rows) _ h₁ in
    elim (Bool-cases (matches q)) [
      | inl m ↦
          let same : q ≡ r = some_inj (rw m at f) in
          let changed : new ≡ change q = changed_one q new m e in
          let again : matches (change q) ≡ true = keeps q ∙ m in
          rw (sym (some_inj h₂), changed, again) (ap (λ x. some (change x)) same)
      | inr m ↦
          let kept : new ≡ q = kept_one q new m e in
          let later : find? matches rows ≡ some r = rw m at f in
          rw (sym (some_inj h₂), kept, m) (find?-update_approvals matches change keeps rows k later)
    ]
  where
    changed_one :
        (q new : Approval)
        → matches q ≡ true
        → update_one matches change q ≡ some new
        → new ≡ change q
    changed_one q new m e = elim (Bool-cases (passes q (change q))) [
      | inl t ↦ sym (some_inj (rw (m, t) at e))
      | inr t ↦ absurd (let x = rw (m, t) at e in cc)
    ]

    kept_one :
        (q new : Approval) → matches q ≡ false → update_one matches change q ≡ some new → new ≡ q
    kept_one q new m e = sym (some_inj (rw m at e))

-- Where the first row of the approval is decided, a decision fails.
decided-refuses :
    (tenant_id id reason reason' : Text) (decision decision' : Decision) (now now' : ℕ) (w : Tables)
    (r : Approval)
    → find? (is_approval tenant_id id) w.approvals ≡ some (set_decision decision reason now r)
    → decide tenant_id id reason' decision' now' w ≡ (throw approval_state_invalid, w)
unfolding decide get_approval decided_status
decided-refuses tenant_id id reason reason' approve decision' now now' w r f = rw f refl
decided-refuses tenant_id id reason reason' reject decision' now now' w r f = rw f refl

-- A decision is final: once a tenant's decision on an approval has gone through, any further
-- decision on it, of either kind, fails and leaves the tables as they are.
pub decide-final :
    (tenant_id id reason reason' : Text) (decision decision' : Decision) (now now' : ℕ) (w : Tables)
    {a : Approval} {after : Tables}
    → decide tenant_id id reason decision now w ≡ (ok (some a), after)
    → decide tenant_id id reason' decision' now' after ≡ (throw approval_state_invalid, after)
unfolding decide get_approval
decide-final tenant_id id reason reason' decision decision' now now' w {a} {after} h =
    let matches = is_approval tenant_id id in
    let change = set_decision decision reason now in
    elim (Option-cases (find? matches w.approvals)) [
      | inl f ↦ absurd (let x = rw f at h in cc)
      | inr (r, f) ↦ elim (Bool-cases (is_pending r.status)) [
        | inl p ↦ elim (Option-cases (update_approvals matches change w.approvals)) [
          | inl u ↦ absurd (let x = rw (f, p, u) at h in cc)
          | inr (rows, u) ↦
              let table : rows ≡ after.approvals =
                ap (λ (q : Result ApprovalError (Option Approval) × Tables). q.1.approvals)
                  (rw (f, p, u) at h) in
              decided-refuses tenant_id id reason reason' decision decision' now now' after r
                (rw (← table) (find?-update_approvals matches change (λ q. refl) w.approvals u f))
        ]
        | inr p ↦ absurd (let x = rw (f, p) at h in cc)
      ]
    ]
