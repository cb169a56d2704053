-- ===== src/Approvals/Pending.antt =====
-- createPending of core/approvals/approvals-repository.ts: a request for an approval, with the
-- CHECKs, the unique keys and the foreign keys of db/migrations/0021_create_approvals.sql.
use cloud_commitment_portfol.Base.{
  ℕ, Bool, true, false, ◌&&◌, ◌||◌, Option, none, some, List, [], ◌∷◌, ◌++◌, find?, any, ltb, not,
  if◌then◌else◌, ◌>>=◌,
}
use cloud_commitment_portfol.Base.Int.{pos}
use cloud_commitment_portfol.Base.Text.{Text, codes, text_eq}
use cloud_commitment_portfol.Base.Json.{Json, null, int, str, obj, end, field}
use cloud_commitment_portfol.Base.Action.{Result, ok, throw}
use cloud_commitment_portfol.Rbac.{
  UserRole, tenant_admin, finops_analyst, finance_approver, read_only_auditor,
}
use cloud_commitment_portfol.Approvals.{
  ApprovalStatus, queued, pending, approved, rejected, expired, failed, Approval, Recommendation,
  Tables, ApprovalError, approval_state_invalid, not_found, write_failed, awaits,
  get_recommendation,
}

-- The columns of `tenants` and `users` that the snapshot reads.
pub record TenantRow : Type 0 where
  pub id : Text
  pub is_active : Bool
  pub name : Text
  pub legal_name : Text
  pub display_name : Text
  pub contact_email : Option Text
  pub contact_phone : Option Text
  pub support_url : Option Text
  pub finance_owner_email : Option Text

pub record UserRow : Type 0 where
  pub id : Text
  pub tenant_id : Text
  pub is_active : Bool
  pub role : UserRole
  pub email : Text

-- The other tables, `Date.toISOString`, and the CHECK of the snapshot's size, which measures the
-- text that the database prints.
pub record Directory : Type 0 where
  pub tenants : List TenantRow
  pub users : List UserRow
  pub to_iso_string : ℕ → Text
  pub is_storable : Json → Bool

pub record InsertInput : Type 0 where
  pub recommendation_id : Text
  pub requested_by_user_id : Option Text
  pub assigned_to_user_id : Option Text
  pub reason : Option Text
  pub expires_at : ℕ

pub record SnapshotRow : Type 0 where
  pub tenant : TenantRow
  pub assigned_to_email : Option Text

-- `users.role IN ('finance_approver', 'tenant_admin')`.
abbrev pub may_be_assigned : UserRole → Bool
may_be_assigned tenant_admin = true
may_be_assigned finance_approver = true
may_be_assigned finops_analyst = false
may_be_assigned read_only_auditor = false

abbrev pub is_user : Text → Text → UserRow → Bool
is_user tenant_id id u = text_eq u.tenant_id tenant_id && text_eq u.id id

-- The LEFT JOIN; `none` where the last condition leaves no row.
unfoldable pub assigned_to_email : Text → List UserRow → Option Text → Option (Option Text)
assigned_to_email tenant_id users none = some none
assigned_to_email tenant_id users (some id) = do
  u ← find? (λ u. is_user tenant_id id u && u.is_active && may_be_assigned u.role) users
  some (some u.email)

unfoldable pub read_snapshot_context : Directory → Text → Option Text → Option SnapshotRow
unfolding assigned_to_email
read_snapshot_context d tenant_id assigned_to_user_id = do
  tenant ← find? (λ t. text_eq t.id tenant_id && t.is_active) d.tenants
  email ← assigned_to_email tenant_id d.users assigned_to_user_id
  some (record { tenant = tenant; assigned_to_email = email })

abbrev pub nullable : Option Text → Json
nullable none = null
nullable (some t) = str t

unfoldable pub tenant_json : TenantRow → Json
tenant_json t = obj (
    field (codes "name") (str t.name) (
      field (codes "legal_name") (str t.legal_name) (
        field (codes "display_name") (str t.display_name) (
          field (codes "contact")
            (obj (
              field (codes "email") (nullable t.contact_email) (
                field (codes "phone") (nullable t.contact_phone) (
                  field (codes "support_url") (nullable t.support_url)
                    (field (codes "finance_owner_email") (nullable t.finance_owner_email) end)))))
            end))))

unfoldable pub recommendation_json : Recommendation → Json
recommendation_json r = obj (
    field (codes "id") (str r.id) (
      field (codes "type") (str r.recommendation_type) (
        field (codes "provider") (str r.provider) (
          field (codes "instrument") (str r.instrument) (
            field (codes "service_code") (str r.service_code) (
              field (codes "region") (str r.region) (
                field (codes "term_months") (int (pos r.term_months)) (
                  field (codes "commitment_amount_cents") (str r.commitment_amount_cents) (
                    field (codes "expected_savings_cents") (str r.expected_savings_cents) (
                      field (codes "p95_downside_loss_cents") (str r.p95_downside_loss_cents) (
                        field (codes "utilization_p50_pct") (str r.utilization_p50_pct) (
                          field (codes "utilization_p95_pct") (str r.utilization_p95_pct) (
                            field (codes "confidence_score") (str r.confidence_score) (
                              field (codes "risk_band") (str r.risk_band)
                                (field (codes "explanation") r.explanation end)))))))))))))))

unfoldable pub build_approval_snapshot :
    Directory → Recommendation → SnapshotRow → InsertInput → Json
unfolding tenant_json recommendation_json
build_approval_snapshot d recommendation context input = obj (
    field (codes "contract_version") (str (codes "approval_packet:v1")) (
      field (codes "tenant") (tenant_json context.tenant) (
        field (codes "recommendation") (recommendation_json recommendation) (
          field (codes "approval")
            (obj (
              field (codes "status") (str (codes "pending")) (
                field (codes "assigned_to") (nullable context.assigned_to_email) (
                  field (codes "expires_at") (str (d.to_iso_string input.expires_at)) (
                    field (codes "decision_reason") null
                      (field (codes "request_reason") (nullable input.reason) end))))))
            end))))

abbrev pub has_id : Text → Approval → Bool
has_id id a = text_eq a.id id

-- `status IN ('queued', 'pending')`.
abbrev pub is_open : ApprovalStatus → Bool
is_open queued = true
is_open pending = true
is_open approved = false
is_open rejected = false
is_open expired = false
is_open failed = false

abbrev pub of_recommendation : Text → Text → Approval → Bool
of_recommendation tenant_id id a = text_eq a.tenant_id tenant_id && text_eq a.recommendation_id id

abbrev pub is_open_for : Text → Text → Approval → Bool
is_open_for tenant_id id a = is_open a.status && of_recommendation tenant_id id a

abbrev pub new_approval : Text → InsertInput → Text → ℕ → Json → Approval
new_approval tenant_id input id now snapshot = record {
  id = id;
  tenant_id = tenant_id;
  recommendation_id = input.recommendation_id;
  status = pending;
  requested_by_user_id = input.requested_by_user_id;
  assigned_to_user_id = input.assigned_to_user_id;
  workflow_execution_id = none;
  decision_reason = none;
  approval_snapshot = snapshot;
  requested_at = now;
  decided_at = none;
  expires_at = input.expires_at;
}

-- The foreign key of `requested_by_user_id`.
abbrev pub is_requester : Directory → Text → Option Text → Bool
is_requester d tenant_id none = true
is_requester d tenant_id (some id) = any (is_user tenant_id id) d.users

-- The two unique keys: the primary one, and `approvals_recommendation_state_key`.
abbrev pub is_taken : Approval → List Approval → Bool
is_taken a rows = any (has_id a.id) rows || any (is_open_for a.tenant_id a.recommendation_id) rows

-- The INSERT: the CHECKs, then the unique keys, whose error 23505 is mapped, then the foreign key.
unfoldable pub insert_approval :
    Directory → Approval → Tables → Result ApprovalError Approval × Tables
insert_approval d a w =
    if not (d.is_storable a.approval_snapshot && ltb a.requested_at a.expires_at)
    then (throw write_failed, w)
    else if is_taken a w.approvals
    then (throw approval_state_invalid, w)
    else if is_requester d a.tenant_id a.requested_by_user_id
    then (ok a, record w { approvals = w.approvals ++ a ∷ [] })
    else (throw write_failed, w)

abbrev pub with_context :
    Directory
    → Text
    → InsertInput
    → Text
    → ℕ
    → Tables
    → Recommendation
    → Option SnapshotRow
    → Result ApprovalError Approval × Tables
with_context d tenant_id input id now w r none = (throw not_found, w)
with_context d tenant_id input id now w r (some context) =
    insert_approval d
      (new_approval tenant_id input id now (build_approval_snapshot d r context input)) w

abbrev pub request_found :
    Directory
    → Text
    → InsertInput
    → Text
    → ℕ
    → Tables
    → Option Recommendation
    → Result ApprovalError Approval × Tables
request_found d tenant_id input id now w none = (throw not_found, w)
request_found d tenant_id input id now w (some r) =
    if awaits r.status && r.approval_required
    then with_context d tenant_id input id now w r
        (read_snapshot_context d tenant_id input.assigned_to_user_id)
    else (throw approval_state_invalid, w)

-- `createPending`, one transaction; the database gives the id and the time.
unfoldable pub create_pending :
    Directory → Text → InsertInput → Text → ℕ → Tables → Result ApprovalError Approval × Tables
unfolding get_recommendation read_snapshot_context build_approval_snapshot insert_approval
create_pending d tenant_id input id now w =
    request_found d tenant_id input id now w
      (get_recommendation tenant_id input.recommendation_id w.recommendations)
