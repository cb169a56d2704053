-- ===== src/Approvals.antt =====
-- core/approvals/approvals-repository.ts: the rows of `approvals` and `recommendations`, the decision
-- on an approval and the mark of its workflow execution, under the trigger of
-- db/migrations/0021_create_approvals.sql, which lets an UPDATE of a row pass or fail.
pub mod Lifecycle
pub mod Pending
pub mod Expiry
pub mod Updates
pub mod Agreement
pub mod History
pub mod Due
pub mod Input
pub mod Listing
pub mod Service
mod Tests
use cloud_commitment_portfol.Base.{
  ℕ, Bool, true, false, not, ◌&&◌, ◌||◌, Option, none, some, List, [], ◌∷◌, map, find?,
  if◌then◌else◌, ◌>>=◌,
}
use cloud_commitment_portfol.Base.Text.{Text, text_eq}
use cloud_commitment_portfol.Base.Json.{Json}
use cloud_commitment_portfol.Base.Action.{Result, ok, throw}

pub data ApprovalStatus : Type 0 where
  queued pending approved rejected expired failed : ApprovalStatus

pub data RecommendationStatus : Type 0 where
  draft ready pending_approval recommendation_approved recommendation_rejected superseded executed
        recommendation_expired :
      RecommendationStatus

-- A row of `approvals`. The trigger writes updated_at, and created_at is requested_at.
pub record Approval : Type 0 where
  pub id : Text
  pub tenant_id : Text
  pub recommendation_id : Text
  pub status : ApprovalStatus
  pub requested_by_user_id : Option Text
  pub assigned_to_user_id : Option Text
  pub workflow_execution_id : Option Text
  pub decision_reason : Option Text
  pub approval_snapshot : Json
  pub requested_at : ℕ
  pub decided_at : Option ℕ
  pub expires_at : ℕ

-- A row of `recommendations`, the numbers as the texts that the projection gives.
pub record Recommendation : Type 0 where
  pub id : Text
  pub tenant_id : Text
  pub recommendation_type : Text
  pub provider : Text
  pub instrument : Text
  pub service_code : Text
  pub region : Text
  pub term_months : ℕ
  pub commitment_amount_cents : Text
  pub expected_savings_cents : Text
  pub p95_downside_loss_cents : Text
  pub utilization_p50_pct : Text
  pub utilization_p95_pct : Text
  pub confidence_score : Text
  pub risk_band : Text
  pub status : RecommendationStatus
  pub explanation : Json
  pub approval_required : Bool

pub record Tables : Type 0 where
  pub approvals : List Approval
  pub recommendations : List Recommendation

-- The transitions that `enforce_approval_lifecycle` lets an UPDATE make.
unfoldable pub transition : ApprovalStatus → ApprovalStatus → Bool
transition queued pending = true
transition queued expired = true
transition queued failed = true
transition pending approved = true
transition pending rejected = true
transition pending expired = true
transition pending failed = true
transition _ _ = false

abbrev is_decision : ApprovalStatus → Bool
is_decision approved = true
is_decision rejected = true
is_decision queued = false
is_decision pending = false
is_decision expired = false
is_decision failed = false

abbrev is_none : Option Text → Bool
is_none none = true
is_none (some t) = false

-- Whether the trigger lets the row change in this way.
unfoldable pub passes : Approval → Approval → Bool
passes old new =
    transition old.status new.status && not (is_decision new.status && is_none new.decision_reason)

unfoldable pub update_one : (Approval → Bool) → (Approval → Approval) → Approval → Option Approval
unfolding passes
update_one matches change r =
    if matches r then (if passes r (change r) then some (change r) else none) else some r

-- `UPDATE approvals SET … WHERE …`; `none` where the trigger raises, which undoes the statement.
unfoldable pub update_approvals :
    (Approval → Bool) → (Approval → Approval) → List Approval → Option (List Approval)
update_approvals matches change [] = some []
update_approvals matches change (r ∷ rows) = do
  new ← update_one matches change r
  rest ← update_approvals matches change rows
  some (new ∷ rest)

-- `WHERE tenant_id = $1 AND id = $2`.
abbrev pub is_approval : Text → Text → Approval → Bool
is_approval tenant_id id r = text_eq r.tenant_id tenant_id && text_eq r.id id

-- `get`.
unfoldable pub get_approval : Text → Text → List Approval → Option Approval
get_approval tenant_id id rows = find? (is_approval tenant_id id) rows

pub data Decision : Type 0 where
  approve reject : Decision

unfoldable pub decided_status : Decision → ApprovalStatus
decided_status approve = approved
decided_status reject = rejected

unfoldable pub decided_recommendation : Decision → RecommendationStatus
decided_recommendation approve = recommendation_approved
decided_recommendation reject = recommendation_rejected

-- `write_failed` is an error of the database that `mapWriteError` passes on.
pub data ApprovalError : Type 0 where
  approval_state_invalid not_found write_failed : ApprovalError

abbrev pub awaits : RecommendationStatus → Bool
awaits pending_approval = true
awaits draft = false
awaits ready = false
awaits recommendation_approved = false
awaits recommendation_rejected = false
awaits superseded = false
awaits executed = false
awaits recommendation_expired = false

abbrev pub is_recommendation : Text → Text → Recommendation → Bool
is_recommendation tenant_id id r = text_eq r.tenant_id tenant_id && text_eq r.id id

-- `getRecommendation`, and getRecommendationForUpdate, which locks the row too.
unfoldable pub get_recommendation : Text → Text → List Recommendation → Option Recommendation
get_recommendation tenant_id id rows = find? (is_recommendation tenant_id id) rows

-- `UPDATE recommendations SET status = $3 WHERE … AND status = 'pending_approval'`.
unfoldable pub decide_recommendation :
    Text → Text → RecommendationStatus → Recommendation → Recommendation
decide_recommendation tenant_id id status r =
    if is_recommendation tenant_id id r && awaits r.status then record r { status = status } else r

abbrev pub set_decision : Decision → Text → ℕ → Approval → Approval
set_decision decision reason now r = record r {
  status = decided_status decision;
  decision_reason = some reason;
  decided_at = some now;
}

abbrev pub is_pending : ApprovalStatus → Bool
is_pending pending = true
is_pending queued = false
is_pending approved = false
is_pending rejected = false
is_pending expired = false
is_pending failed = false

abbrev pub decided :
    Text
    → Text
    → List Recommendation
    → Tables
    → Option (List Approval)
    → Result ApprovalError (Option Approval) × Tables
decided tenant_id id recommendations w none = (throw approval_state_invalid, w)
decided tenant_id id recommendations w (some approvals) = (
  ok (get_approval tenant_id id approvals),
  record { approvals = approvals; recommendations = recommendations },
)

abbrev pub decide_found :
    Text
    → Text
    → Text
    → Decision
    → ℕ
    → Tables
    → Option Approval
    → Result ApprovalError (Option Approval) × Tables
decide_found tenant_id id reason decision now w none = (ok none, w)
decide_found tenant_id id reason decision now w (some approval) =
    if is_pending approval.status
    then decided tenant_id id
        (map
          (decide_recommendation tenant_id approval.recommendation_id
            (decided_recommendation decision))
          w.recommendations)
        w
        (update_approvals (is_approval tenant_id id) (set_decision decision reason now) w.approvals)
    else (throw approval_state_invalid, w)

-- `decide`, one transaction.
unfoldable pub decide :
    Text → Text → Text → Decision → ℕ → Tables → Result ApprovalError (Option Approval) × Tables
decide tenant_id id reason decision now w =
    decide_found tenant_id id reason decision now w (get_approval tenant_id id w.approvals)

-- `AND workflow_execution_id IS NULL`.
abbrev pub unmarked : Text → Text → Approval → Bool
unmarked tenant_id id r = is_approval tenant_id id r && is_none r.workflow_execution_id

-- `setWorkflowExecutionId`; `none` is the error that the trigger raises.
unfoldable pub set_workflow_execution_id :
    Text → Text → Text → List Approval → Option (List Approval)
set_workflow_execution_id tenant_id id execution_id rows =
    update_approvals (unmarked tenant_id id)
      (λ r. record r { workflow_execution_id = some execution_id }) rows
