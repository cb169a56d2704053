-- ===== src/Approvals/History.antt =====
-- Every history of the two tables: requests, decisions, expiries, marks of workflow executions and
-- new recommendations, one transaction after the other.
use cloud_commitment_portfol.Base.{
  ℕ, Bool, Option, none, some, List, [], ◌∷◌, ◌++◌, All-weaken, find?-append, inl, inr, arith,
}
use cloud_commitment_portfol.Base.Text.{Text}
use cloud_commitment_portfol.Approvals.{
  Approval, Recommendation, Tables, Decision, is_recommendation, decide, set_workflow_execution_id,
}
use cloud_commitment_portfol.Approvals.Pending.{Directory, InsertInput, create_pending}
use cloud_commitment_portfol.Approvals.Expiry.{expire_due}
use cloud_commitment_portfol.Approvals.Lifecycle.{set_workflow_execution_id-never_sets}
use cloud_commitment_portfol.Approvals.Agreement.{Consistent}
use cloud_commitment_portfol.Approvals.Agreement.Decided.{decide-Consistent}
use cloud_commitment_portfol.Approvals.Agreement.Expired.{expire_due-Consistent}
use cloud_commitment_portfol.Approvals.Agreement.Requested.{create_pending-Consistent}

-- `recommends` is a row that the optimizer worker inserts.
pub data Transaction : Type 0 where
  requests : Directory → Text → InsertInput → Text → ℕ → Transaction
  decides : Text → Text → Text → Decision → ℕ → Transaction
  expires : (Text → Bool) → ℕ → ℕ → Transaction
  marks : Text → Text → Text → Transaction
  recommends : Recommendation → Transaction

abbrev pub marked : Tables → Option (List Approval) → Tables
marked w none = w
marked w (some rows) = record w { approvals = rows }

abbrev pub after_one : Transaction → Tables → Tables
after_one (requests d tenant_id input id now) w = (create_pending d tenant_id input id now w).1
after_one (decides tenant_id id reason decision now) w =
    (decide tenant_id id reason decision now w).1
after_one (expires locked now limit) w = (expire_due locked now limit w).1
after_one (marks tenant_id id execution_id) w =
    marked w (set_workflow_execution_id tenant_id id execution_id w.approvals)
after_one (recommends r) w = record w { recommendations = w.recommendations ++ r ∷ [] }

abbrev pub after_all : List Transaction → Tables → Tables
after_all [] w = w
after_all (t ∷ ts) w = after_all ts (after_one t w)

after_one-Consistent : (t : Transaction) (w : Tables) → Consistent w → Consistent (after_one t w)
after_one-Consistent (requests d tenant_id input id now) w h =
    create_pending-Consistent d tenant_id input id now w h
after_one-Consistent (decides tenant_id id reason decision now) w h =
    decide-Consistent tenant_id id reason decision now w h
after_one-Consistent (expires locked now limit) w h = expire_due-Consistent locked now limit w h
after_one-Consistent (marks tenant_id id execution_id) w h =
    elim (set_workflow_execution_id-never_sets tenant_id id execution_id w.approvals) [
      | inl (_, e) ↦ rw e h
      | inr (_, e) ↦
          rw e record { unique_ids = h.unique_ids; one_open = h.one_open; agreed = h.agreed }
    ]
after_one-Consistent (recommends r) w h = record {
  unique_ids = h.unique_ids;
  one_open = h.one_open;
  agreed =
      All-weaken
        (λ a k. (
          k.0,
          find?-append (is_recommendation a.tenant_id a.recommendation_id) w.recommendations
              (r ∷ []) k.1,
          k.2,
        ))
        w.approvals h.agreed;
}

pub after_all-Consistent :
    (ts : List Transaction) (w : Tables) → Consistent w → Consistent (after_all ts w)
after_all-Consistent [] w h = h
after_all-Consistent (t ∷ ts) w h =
    after_all-Consistent ts (after_one t w) (after_one-Consistent t w h)

-- After every sequence of requests, decisions, expiries, marks and new recommendations, from tables
-- with no approval, each approval agrees with its recommendation: that of a pending approval awaits
-- its decision, that of an approved, rejected or expired one is approved, rejected or expired too;
-- no two approvals share an id, and a recommendation has at most one open approval.
pub history-Consistent :
    (ts : List Transaction) (recommendations : List Recommendation)
    → Consistent (after_all ts (record { approvals = []; recommendations = recommendations }))
history-Consistent ts recommendations =
    after_all-Consistent ts _
      record { unique_ids = λ i. omega arith; one_open = λ t i. omega arith; agreed = tt }
