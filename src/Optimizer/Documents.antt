-- ===== src/Optimizer/Documents.antt =====
-- The documents that the worker writes: `buildFrontier`, `buildOutput`, `infeasibilityDetails`, and
-- the row of `recommendationInput`.
use cloud_commitment_portfol.Base.{
  List, [], ◌∷◌, ◌++◌, map, length, filter, Option, none, some, if◌then◌else◌, ◌>>=◌,
}
use cloud_commitment_portfol.Base.Int.{ℤ, pos, leb_ℤ}
use cloud_commitment_portfol.Base.Text.{Text, codes, to_text}
use cloud_commitment_portfol.Base.Json.{
  Json, null, bool, int, str, arr, obj, Fields, end, field, of_items,
}
use cloud_commitment_portfol.Optimizer.Numeric.{min_of, max_of}
use cloud_commitment_portfol.Optimizer.Types.{
  Provider, aws, azure, gcp, Instrument, aws_compute_savings_plan, aws_reserved_instance,
  azure_savings_plan, azure_reservation, gcp_committed_use_discount, PaymentOption, no_upfront,
  partial_upfront, all_upfront, monthly, RiskBand, low, medium, high, blocked, Constraint,
  risk_budget, minimum_expected_savings, utilization_gap, WorkerRun, Candidate, PolicySnapshot,
}
use cloud_commitment_portfol.Optimizer.Policy.{policy_snapshot}
use cloud_commitment_portfol.Optimizer.Evaluate.{is_feasible}
use cloud_commitment_portfol.Optimizer.Repository.{
  RecommendationInput, buy, ready, pending_approval,
}

unfoldable pub provider_text : Provider → Text
provider_text aws = codes "aws"
provider_text azure = codes "azure"
provider_text gcp = codes "gcp"

unfoldable pub instrument_text : Instrument → Text
instrument_text aws_compute_savings_plan = codes "aws_compute_savings_plan"
instrument_text aws_reserved_instance = codes "aws_reserved_instance"
instrument_text azure_savings_plan = codes "azure_savings_plan"
instrument_text azure_reservation = codes "azure_reservation"
instrument_text gcp_committed_use_discount = codes "gcp_committed_use_discount"

unfoldable pub payment_text : PaymentOption → Text
payment_text no_upfront = codes "no_upfront"
payment_text partial_upfront = codes "partial_upfront"
payment_text all_upfront = codes "all_upfront"
payment_text monthly = codes "monthly"

unfoldable pub risk_text : RiskBand → Text
risk_text low = codes "low"
risk_text medium = codes "medium"
risk_text high = codes "high"
risk_text blocked = codes "blocked"

unfoldable pub constraint_text : Constraint → Text
constraint_text risk_budget = codes "risk_budget"
constraint_text minimum_expected_savings = codes "minimum_expected_savings"
constraint_text utilization_gap = codes "utilization_gap"

abbrev texts : List Text → Json
texts ts = arr (of_items (map str ts))

-- A candidate as `JSON.stringify` writes it.
unfoldable pub candidate_json : Candidate → Json
unfolding provider_text instrument_text payment_text risk_text constraint_text to_text
candidate_json c = obj (
    field (codes "provider") (str (provider_text c.provider)) (
      field (codes "instrument") (str (instrument_text c.instrument)) (
        field (codes "service_code") (str c.service_code) (
          field (codes "region") (str c.region) (
            field (codes "term_months") (int (pos c.term_months)) (
              field (codes "payment_option") (str (payment_text c.payment_option)) (
                field (codes "commitment_amount_cents") (str (to_text c.commitment_amount_cents)) (
                  field (codes "expected_savings_cents") (str (to_text c.expected_savings_cents)) (
                    field (codes "p95_downside_loss_cents")
                      (str (to_text c.p95_downside_loss_cents))
                      (field (codes "utilization_p50_pct") (str c.utilization_p50_pct) (
                        field (codes "utilization_p95_pct") (str c.utilization_p95_pct) (
                          field (codes "confidence_score") (str c.confidence_score) (
                            field (codes "risk_band") (str (risk_text c.risk_band)) (
                              field (codes "feasible") (bool c.feasible) (
                                field (codes "binding_constraints")
                                  (texts (map constraint_text c.binding_constraints))
                                  end)))))))))))))))

-- `buildOutput`.
unfoldable pub build_output : WorkerRun → Candidate → Fields
unfolding candidate_json
build_output run selected = field (codes "schema_version") (str (codes "optimizer-run-output:v1")) (
    field (codes "optimizer_run_id") (str run.id)
      (field (codes "selected_candidate") (candidate_json selected) end))

-- `selected?.… ?? null`.
abbrev selected_text : Option Candidate → (Candidate → ℤ) → Json
selected_text none amount = null
selected_text (some c) amount = str (to_text (amount c))

-- `buildFrontier`.
unfoldable pub build_frontier : WorkerRun → List Candidate → Option Candidate → Fields
unfolding candidate_json min_of max_of to_text
build_frontier run candidates selected =
    let best_expected = max_of (map (λ (c : Candidate). c.expected_savings_cents) candidates) in
    let lowest_downside = min_of (map (λ (c : Candidate). c.p95_downside_loss_cents) candidates) in
    let summary = field (codes "candidate_count") (int (pos (length candidates))) (
      field (codes "feasible_count") (int (pos (length (filter is_feasible candidates)))) (
        field (codes "best_expected_savings_cents") (str (to_text best_expected)) (
          field (codes "lowest_p95_downside_loss_cents") (str (to_text lowest_downside)) (
            field (codes "selected_expected_savings_cents")
              (selected_text selected (λ c. c.expected_savings_cents))
              (field (codes "selected_p95_downside_loss_cents")
                (selected_text selected (λ c. c.p95_downside_loss_cents)) end))))) in
    field (codes "schema_version") (str (codes "optimizer-frontier:v1")) (
      field (codes "optimizer_run_id") (str run.id) (
        field (codes "summary") (obj summary)
          (field (codes "points") (arr (of_items (map candidate_json candidates))) end)))

-- `infeasibilityDetails`.
unfoldable pub infeasibility_details : List Candidate → Fields
unfolding min_of to_text
infeasibility_details candidates =
    let lowest_downside = min_of (map (λ (c : Candidate). c.p95_downside_loss_cents) candidates) in
    let relaxation = λ (name value : Text).
      obj (field (codes "field") (str name) (field (codes "suggested_value") (str value) end)) in
    field (codes "reason") (str (codes "NO_FEASIBLE_CANDIDATES")) (
      field (codes "ranked_relaxations")
        (arr (
          of_items (
            relaxation (codes "min_expected_savings_cents") (codes "0")
            ∷ relaxation (codes "max_downside_loss_cents") (to_text lowest_downside)
            ∷ [])))
        end)

unfoldable pub frontier_key : WorkerRun → Text
frontier_key run = codes "optimizer-runs/" ++ (run.id ++ codes "/frontier.json")

unfoldable pub output_key : WorkerRun → Text
output_key run = codes "optimizer-runs/" ++ (run.id ++ codes "/output.json")

-- The record that `recommendationInput` returns.
unfoldable pub recommendation_of : WorkerRun → PolicySnapshot → Candidate → RecommendationInput
recommendation_of run policy selected =
    let approval_required =
      leb_ℤ policy.approval_threshold_cents selected.commitment_amount_cents in
    record {
      recommendation_type = buy;
      provider = selected.provider;
      instrument = selected.instrument;
      service_code = selected.service_code;
      region = selected.region;
      term_months = selected.term_months;
      commitment_amount_cents = selected.commitment_amount_cents;
      expected_savings_cents = selected.expected_savings_cents;
      p95_downside_loss_cents = selected.p95_downside_loss_cents;
      utilization_p50_pct = selected.utilization_p50_pct;
      utilization_p95_pct = selected.utilization_p95_pct;
      confidence_score = selected.confidence_score;
      risk_band = selected.risk_band;
      status = if approval_required then pending_approval else ready;
      approval_required = approval_required;
      explanation = field (codes "baseline_name") (str (codes "on_demand")) (
          field (codes "binding_constraints") (texts (codes "risk_budget" ∷ [])) (
            field (codes "price_table_version_ids") (texts run.price_table_version_ids)
              (field (codes "frontier_uri") (str (frontier_key run)) end)));
    }

-- `recommendationInput`; `none` is the SyntaxError of `BigInt` in the policy.
unfoldable pub recommendation_input : WorkerRun → Fields → Candidate → Option RecommendationInput
recommendation_input run snapshot selected = do
  policy ← policy_snapshot snapshot
  some (recommendation_of run policy selected)
