-- ===== src/Approvals/Service.antt =====
-- core/approvals/approvals-service.ts: a request, a look and a decision, from the parsing of the
-- input to the answer. The hooks run last and cannot fail the call; what they do is left out, and
-- so are the projections of the rows.
pub mod Answers
mod Tests
use cloud_commitment_portfol.Base.{
  ℕ, ◌+◌, ◌*◌, Bool, Option, none, some, List, if◌then◌else◌, ◌>>=◌,
}
use cloud_commitment_portfol.Base.Text.{Text}
use cloud_commitment_portfol.Base.Json.{Json}
use cloud_commitment_portfol.Base.Action.{Result, ok, throw}
use cloud_commitment_portfol.Approvals.{
  Approval, Recommendation, Tables, Decision, ApprovalError, approval_state_invalid, not_found,
  write_failed, get_approval, get_recommendation, decide,
}
use cloud_commitment_portfol.Approvals.Pending.{Directory, InsertInput, create_pending}
use cloud_commitment_portfol.Approvals.Input.{
  Engine, RequestInput, DecisionInput, uuid, parse_approval_request_body,
  parse_approval_decision_body,
}

pub data ServiceError : Type 0 where
  validation_error state_invalid missing approvals_unavailable : ServiceError

-- `safe`: an AppError passes, any other error becomes APPROVALS_UNAVAILABLE.
abbrev pub safe : ApprovalError → ServiceError
safe approval_state_invalid = state_invalid
safe not_found = missing
safe write_failed = approvals_unavailable

abbrev pub insert_input : ℕ → ℕ → Option Text → RequestInput → InsertInput
insert_input expiry_hours now actor_user_id input = record {
  recommendation_id = input.recommendation_id;
  requested_by_user_id = actor_user_id;
  assigned_to_user_id = input.assigned_to_user_id;
  reason = input.reason;
  expires_at = now + expiry_hours * 60 * 60 * 1000;
}

-- How a transaction ends for the caller: it answers, it is lost before its COMMIT, or its COMMIT
-- went through and the answer to it is lost.
pub data Reply : Type 0 where
  answers rolled_back unacknowledged : Reply

-- A transaction under `safe`, from what it answers if nothing is lost.
abbrev pub transact :
    {A : Type 0} → Reply → Tables → Result ApprovalError A × Tables → Result ServiceError A × Tables
transact answers w (ok a, after) = (ok a, after)
transact answers w (throw error, after) = (throw (safe error), after)
transact rolled_back w out = (throw approvals_unavailable, w)
transact unacknowledged w (answer, after) = (throw approvals_unavailable, after)

abbrev pub request_parsed :
    Directory
    → ℕ
    → ℕ
    → Text
    → Option Text
    → Text
    → ℕ
    → Reply
    → Tables
    → Option RequestInput
    → Result ServiceError Approval × Tables
request_parsed d expiry_hours now tenant_id actor_user_id new_id row_time reply w none =
    (throw validation_error, w)
request_parsed d expiry_hours now tenant_id actor_user_id new_id row_time reply w (some input) =
    transact reply w (
      create_pending d tenant_id (insert_input expiry_hours now actor_user_id input) new_id row_time
        w)

-- `requestApproval`; `now` is the clock's, `row_time` that of the database, both in milliseconds.
unfoldable pub request_approval :
    Engine
    → Directory
    → ℕ
    → ℕ
    → Text
    → Option Text
    → Text
    → ℕ
    → Json
    → Json
    → Reply
    → Tables
    → Result ServiceError Approval × Tables
unfolding create_pending parse_approval_request_body
request_approval e d expiry_hours now tenant_id actor_user_id new_id row_time id body reply w =
    request_parsed d expiry_hours now tenant_id actor_user_id new_id row_time reply w
      (parse_approval_request_body e id body)

pub record ApprovalDetail : Type 0 where
  pub approval : Approval
  pub recommendation : Recommendation

-- The recommendation that an answer goes with.
abbrev pub detail : Approval → Option Recommendation → Result ServiceError ApprovalDetail
detail a none = throw missing
detail a (some r) = ok (record { approval = a; recommendation = r })

-- The query of `getRecommendation` is one of its own: where it fails, `safe` throws.
abbrev pub found_detail :
    Text → Bool → Tables → Option Approval → Result ServiceError ApprovalDetail
found_detail tenant_id read_fails w none = throw missing
found_detail tenant_id read_fails w (some a) =
    if read_fails
    then throw approvals_unavailable
    else detail a (get_recommendation tenant_id a.recommendation_id w.recommendations)

abbrev pub get_parsed :
    Text → Bool → Bool → Tables → Option Text → Result ServiceError ApprovalDetail
get_parsed tenant_id get_fails read_fails w none = throw validation_error
get_parsed tenant_id get_fails read_fails w (some id) =
    if get_fails
    then throw approvals_unavailable
    else found_detail tenant_id read_fails w (get_approval tenant_id id w.approvals)

-- `get`, whose two queries may fail.
unfoldable pub get_detail : Text → Json → Bool → Bool → Tables → Result ServiceError ApprovalDetail
unfolding get_recommendation get_approval uuid
get_detail tenant_id id get_fails read_fails w =
    get_parsed tenant_id get_fails read_fails w (uuid id)

abbrev pub answered :
    Text
    → Bool
    → Result ServiceError (Option Approval) × Tables
    → Result ServiceError ApprovalDetail × Tables
answered tenant_id read_fails (throw error, w) = (throw error, w)
answered tenant_id read_fails (ok found, w) = (found_detail tenant_id read_fails w found, w)

abbrev pub decide_parsed :
    Text
    → Decision
    → ℕ
    → Reply
    → Bool
    → Tables
    → Option DecisionInput
    → Result ServiceError ApprovalDetail × Tables
decide_parsed tenant_id decision now reply read_fails w none = (throw validation_error, w)
decide_parsed tenant_id decision now reply read_fails w (some input) =
    answered tenant_id read_fails
      (transact reply w (decide tenant_id input.approval_id input.decision_reason decision now w))

-- `decide`, of `approve` and `reject`: a transaction, and a query after it.
unfoldable pub decide_approval :
    Engine
    → Text
    → Decision
    → ℕ
    → Json
    → Json
    → Reply
    → Bool
    → Tables
    → Result ServiceError ApprovalDetail × Tables
unfolding decide get_recommendation parse_approval_decision_body
decide_approval e tenant_id decision now id body reply read_fails w =
    decide_parsed tenant_id decision now reply read_fails w (parse_approval_decision_body e id body)
