-- ===== src/Approvals/Tests.antt =====
-- One pending approval: its decision, a second one, and the mark of its workflow execution.
use cloud_commitment_portfol.Base.{
  ◌≡◌, ◌⊎◌, ◌-◌, ◌*◌, refl, true, false, some, none, [], ◌∷◌, any, map, filter, count, length, ltb,
  All, ◌&&◌, ◌≤◌, not, List,
}
use cloud_commitment_portfol.Base.Sort.{sort}
use cloud_commitment_portfol.Base.Text.{codes, text_eq, compare_text}
use cloud_commitment_portfol.Base.Json.{null}
use cloud_commitment_portfol.Base.Action.{ok, throw}
use cloud_commitment_portfol.Approvals.{
  Approval, Recommendation, Tables, pending, approved, expired, pending_approval,
  recommendation_approved, approve, reject, approval_state_invalid, decide, decided_status,
  decided_recommendation, decide_recommendation, get_approval, update_approvals, update_one, passes,
  transition, set_decision, set_workflow_execution_id, unmarked,
}
use cloud_commitment_portfol.Rbac.{finance_approver}
use cloud_commitment_portfol.Approvals.Pending.{Directory, InsertInput, create_pending}
use cloud_commitment_portfol.Approvals.Expiry.{
  due_rows, is_due, set_expired, expire_due, process_expired_approvals,
}
use cloud_commitment_portfol.Approvals.Updates.{updated}
use cloud_commitment_portfol.Approvals.Agreement.{Consistent}
use cloud_commitment_portfol.Approvals.History.{
  Transaction, requests, decides, after_all, history-Consistent,
}
use cloud_commitment_portfol.Approvals.Due.{is_among}
use cloud_commitment_portfol.Approvals.Due.Takes.{expire_due-takes}
use cloud_commitment_portfol.Approvals.Due.Runs.{expiry_runs, count-expiry_runs}
use cloud_commitment_portfol.Approvals.Lifecycle.{
  set_workflow_execution_id-never_sets, decide-final,
}

statements : Unit {0}
unfolding decide decided_status decided_recommendation decide_recommendation get_approval
    update_approvals update_one passes transition set_workflow_execution_id text_eq
statements = tt

abbrev asked : Approval
asked = record {
  id = codes "a1";
  tenant_id = codes "t1";
  recommendation_id = codes "r1";
  status = pending;
  requested_by_user_id = none;
  assigned_to_user_id = none;
  workflow_execution_id = none;
  decision_reason = none;
  approval_snapshot = null;
  requested_at = 1;
  decided_at = none;
  expires_at = 100;
}

abbrev pub purchase : Recommendation
purchase = record {
  id = codes "r1";
  tenant_id = codes "t1";
  recommendation_type = codes "buy";
  provider = codes "aws";
  instrument = codes "aws_compute_savings_plan";
  service_code = codes "ec2";
  region = codes "eu-west-1";
  term_months = 12;
  commitment_amount_cents = codes "1000";
  expected_savings_cents = codes "200";
  p95_downside_loss_cents = codes "50";
  utilization_p50_pct = codes "90.00";
  utilization_p95_pct = codes "95.00";
  confidence_score = codes "0.9000";
  risk_band = codes "low";
  status = pending_approval;
  explanation = null;
  approval_required = true;
}

abbrev before : Tables
before = record { approvals = asked ∷ []; recommendations = purchase ∷ [] }

abbrev after : Tables
after = record {
  approvals = set_decision approve (codes "fits") 7 asked ∷ [];
  recommendations = record purchase { status = recommendation_approved } ∷ [];
}

approves :
    decide (codes "t1") (codes "a1") (codes "fits") approve 7 before
    ≡ (ok (some (set_decision approve (codes "fits") 7 asked)), after)
unfolding statements
approves = refl

mark_fails : set_workflow_execution_id (codes "t1") (codes "a1") (codes "x") (asked ∷ []) ≡ none
unfolding statements
mark_fails = refl

final_example :
    decide (codes "t1") (codes "a1") (codes "no") reject 9 after
    ≡ (throw approval_state_invalid, after)
final_example =
    decide-final (codes "t1") (codes "a1") (codes "fits") (codes "no") approve reject 7 9 before
      approves

never_sets_example :
    ((any (unmarked (codes "t1") (codes "a1")) (asked ∷ []) ≡ true)
      × (set_workflow_execution_id (codes "t1") (codes "a1") (codes "x") (asked ∷ []) ≡ none))
    ⊎ ((any (unmarked (codes "t1") (codes "a1")) (asked ∷ []) ≡ false)
        × (set_workflow_execution_id (codes "t1") (codes "a1") (codes "x") (asked ∷ [])
            ≡ some (asked ∷ [])))
never_sets_example =
    set_workflow_execution_id-never_sets (codes "t1") (codes "a1") (codes "x") (asked ∷ [])

-- A tenant whose approver is asked, and two requests of which one is decided and one expires.
abbrev pub directory : Directory
directory = record {
  tenants =
      record {
        id = codes "t1";
        is_active = true;
        name = codes "n";
        legal_name = codes "l";
        display_name = codes "d";
        contact_email = none;
        contact_phone = none;
        support_url = none;
        finance_owner_email = none;
      }
      ∷ [];
  users =
      record {
        id = codes "u1";
        tenant_id = codes "t1";
        is_active = true;
        role = finance_approver;
        email = codes "e";
      }
      ∷ [];
  to_iso_string = λ time. [];
  is_storable = λ snapshot. true;
}

abbrev pub ask : InsertInput
ask = record {
  recommendation_id = codes "r1";
  requested_by_user_id = some (codes "u1");
  assigned_to_user_id = some (codes "u1");
  reason = none;
  expires_at = 50;
}

abbrev pub ask_other : InsertInput
ask_other = record ask { recommendation_id = codes "r2" }

abbrev history : List Transaction
history =
    requests directory (codes "t1") ask (codes "a1") 5
    ∷ requests directory (codes "t1") ask (codes "a2") 6
    ∷ requests directory (codes "t1") ask_other (codes "a3") 7
    ∷ decides (codes "t1") (codes "a1") (codes "fits") approve 8
    ∷ []

abbrev pub start_rows : List Recommendation
start_rows = purchase ∷ record purchase { id = codes "r2" } ∷ []

abbrev tables : Tables
tables = after_all history (record { approvals = []; recommendations = start_rows })

-- The second request on the same recommendation is refused.
requests_once : map (λ (a : Approval). a.status) tables.approvals ≡ approved ∷ pending ∷ []
unfolding statements create_pending
requests_once = refl

expires_one :
    map
      (λ (a : Approval). a.status)
      (process_expired_approvals (λ id. false) 50 none tables).1.approvals
    ≡ approved ∷ expired ∷ []
unfolding statements create_pending process_expired_approvals sort compare_text
expires_one = refl

history_example :
    Consistent (after_all history (record { approvals = []; recommendations = start_rows }))
history_example = history-Consistent history start_rows

takes_example :
    let taken = is_among (due_rows (λ id. false) 50 10 tables.approvals) in
    let rows = filter taken tables.approvals in
    ((expire_due (λ id. false) 50 10 tables).0
      ≡ ok (record {
        processed = ltb 0 (length rows);
        approval_ids = map (λ a. a.id) rows;
        recommendation_ids = map (λ a. a.recommendation_id) rows;
      }))
    × ((expire_due (λ id. false) 50 10 tables).1.approvals
        ≡ map (updated taken (set_expired 50)) tables.approvals)
    × All
        (λ a.
          is_due 50 a && not false ≡ true
          → taken a ≡ false
          → All (λ d. d.expires_at ≤ a.expires_at) (due_rows (λ id. false) 50 10 tables.approvals))
        tables.approvals
takes_example = expire_due-takes (λ id. false) 50 10 tables (history-Consistent history start_rows)

runs_example :
    count (is_due 50) (expiry_runs 3 50 10 tables).approvals
    ≡ count (is_due 50) tables.approvals - 3 * 10
runs_example = count-expiry_runs 3 50 10 tables (history-Consistent history start_rows)
