-- ===== src/Approvals/Expiry.antt =====
-- expireDue of core/approvals/approvals-repository.ts: one statement that expires the pending
-- approvals that are due and their recommendations; and core/approvals/approval-expiry-worker.ts.
use cloud_commitment_portfol.Base.{
  ℕ, Bool, not, ◌&&◌, Option, none, some, List, map, filter, take, any, ltb, leb, length,
  if◌then◌else◌,
}
use cloud_commitment_portfol.Base.Int.{ℤ, pos, negsuc}
use cloud_commitment_portfol.Base.Sort.{sort}
use cloud_commitment_portfol.Base.Text.{Text, compare_text}
use cloud_commitment_portfol.Base.Action.{Result, ok, throw}
use cloud_commitment_portfol.Approvals.{
  expired, recommendation_expired, Approval, Recommendation, Tables, ApprovalError, write_failed,
  awaits, is_pending, is_recommendation, update_approvals,
}

pub record ExpiryResult : Type 0 where
  pub processed : Bool
  pub approval_ids : List Text
  pub recommendation_ids : List Text

-- `status = 'pending' AND expires_at <= $1`.
abbrev pub is_due : ℕ → Approval → Bool
is_due now a = is_pending a.status && leb a.expires_at now

-- `ORDER BY expires_at ASC, id ASC`.
unfoldable pub compare_due : Approval → Approval → ℤ
compare_due a b =
    if ltb a.expires_at b.expires_at
    then negsuc 0
    else if ltb b.expires_at a.expires_at
    then pos 1
    else compare_text a.id b.id

-- `due`; `locked` tells the ids of the rows that FOR UPDATE SKIP LOCKED passes over.
unfoldable pub due_rows : (Text → Bool) → ℕ → ℕ → List Approval → List Approval
unfolding compare_due
due_rows locked now limit rows =
    take limit (sort compare_due (filter (λ a. is_due now a && not (locked a.id)) rows))

-- `expired_recommendations`, the rows that the first UPDATE finds.
abbrev pub expires : List Approval → Recommendation → Bool
expires due r =
    any (λ d. is_recommendation d.tenant_id d.recommendation_id r) due && awaits r.status

abbrev pub expire_recommendation : List Approval → Recommendation → Recommendation
expire_recommendation due r =
    if expires due r then record r { status = recommendation_expired } else r

-- The rows that the second UPDATE joins to them.
abbrev pub joins : List Approval → List Recommendation → Approval → Bool
joins due recommendations a =
    is_pending a.status
    && any (λ r. expires due r && is_recommendation a.tenant_id a.recommendation_id r)
        recommendations

abbrev pub set_expired : ℕ → Approval → Approval
set_expired now a = record a { status = expired; decided_at = some now }

-- `none` where the trigger raises.
abbrev pub expired_rows :
    List Approval → Tables → Option (List Approval) → Result ApprovalError ExpiryResult × Tables
expired_rows due w none = (throw write_failed, w)
expired_rows due w (some approvals) =
    let rows = filter (joins due w.recommendations) w.approvals in
    (
      ok (record {
        processed = ltb 0 (length rows);
        approval_ids = map (λ a. a.id) rows;
        recommendation_ids = map (λ a. a.recommendation_id) rows;
      }),
      record {
        approvals = approvals;
        recommendations = map (expire_recommendation due) w.recommendations;
      },
    )

-- `expireDue`, for the rows that the statement sees when it starts.
unfoldable pub expire_due :
    (Text → Bool) → ℕ → ℕ → Tables → Result ApprovalError ExpiryResult × Tables
unfolding due_rows
expire_due locked now limit w =
    let due = due_rows locked now limit w.approvals in
    expired_rows due w
      (update_approvals (joins due w.recommendations) (set_expired now) w.approvals)

-- `processExpiredApprovals`; the size of a batch is 100 where the options give none.
abbrev pub default_batch_size : ℕ
default_batch_size = 100

abbrev pub batch_size : Option ℕ → ℕ
batch_size none = default_batch_size
batch_size (some n) = n

unfoldable pub process_expired_approvals :
    (Text → Bool) → ℕ → Option ℕ → Tables → Result ApprovalError ExpiryResult × Tables
unfolding expire_due
process_expired_approvals locked now size w = expire_due locked now (batch_size size) w
