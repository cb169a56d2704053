-- ===== src/Optimizer/Evaluate/Tests.antt =====
-- The kernel on a concrete run, and its theorems at that run.
use cloud_commitment_portfol.Base.{◌≡◌, refl, none, some, [], ◌∷◌, All, true, false, ◌↔◌}
use cloud_commitment_portfol.Base.Int.{pos, ◌+ℤ◌, ◌-ℤ◌, ◌*ℤ◌, neg, quot, rem, ◌≤ℤ◌, sum_from}
use cloud_commitment_portfol.Base.Sort.{sort, sort_big_int}
use cloud_commitment_portfol.Base.Text.{codes, big_int}
use cloud_commitment_portfol.Base.Json.{member}
use cloud_commitment_portfol.Optimizer.Numeric.{
  percentile, rounded_div, mean_rounded, min_big_int, format_bps, decimal_percent_to_bps,
}
use cloud_commitment_portfol.Optimizer.Types.{
  aws, azure, aws_compute_savings_plan, no_upfront, low, high, risk_budget,
  minimum_expected_savings, Candidate, PolicySnapshot, ForecastPoint,
}
use cloud_commitment_portfol.Optimizer.Policy.{
  policy_snapshot, forecast_points, points_for_item, service_code, coverage_service_code,
}
use cloud_commitment_portfol.Optimizer.Evaluate.{
  Economics, economics, candidate_of, evaluated, item_economics, evaluate_item, compare_candidates,
  optimize_commitment_instrument, optimize_commitment_run, run_points,
}
use cloud_commitment_portfol.Optimizer.Evaluate.Kernel.{
  IsSound, optimize_commitment_run-IsSound, candidate_of-feasible_iff,
}
use cloud_commitment_portfol.Optimizer.Evaluate.Ranking.{
  NoBetter, optimize_commitment_run-first_is_best,
}
use cloud_commitment_portfol.Optimizer.Evaluate.Samples.{
  sample_item, sample_run, sample_snapshot, sample_forecast, sample_items,
}

-- The whole kernel, opened.
unfoldable pub kernel : Unit {0}
unfolding optimize_commitment_run optimize_commitment_instrument run_points evaluate_item evaluated
    item_economics economics candidate_of compare_candidates policy_snapshot forecast_points
    points_for_item service_code decimal_percent_to_bps format_bps big_int sort sort_big_int ◌+ℤ◌
    ◌-ℤ◌ ◌*ℤ◌ neg quot rem percentile mean_rounded rounded_div min_big_int coverage_service_code
    member sum_from
kernel = tt

abbrev fair : Candidate
fair = record {
  provider = aws;
  instrument = aws_compute_savings_plan;
  service_code = codes "ec2";
  region = codes "eu";
  term_months = 12;
  payment_option = no_upfront;
  commitment_amount_cents = pos 10000;
  expected_savings_cents = pos 2367;
  p95_downside_loss_cents = pos 0;
  utilization_p50_pct = codes "100.00";
  utilization_p95_pct = codes "100.00";
  confidence_score = codes "0.9000";
  risk_band = low;
  feasible = true;
  binding_constraints = [];
}

abbrev dear : Candidate
dear = record fair {
  expected_savings_cents = pos 0;
  p95_downside_loss_cents = pos 6600;
  risk_band = high;
  feasible = false;
  binding_constraints = risk_budget ∷ minimum_expected_savings ∷ [];
}

-- The item that loses money comes first in the price list and last in the ranking.
pub sample_result :
    optimize_commitment_run sample_run sample_snapshot sample_forecast sample_items
    ≡ some (fair ∷ dear ∷ [])
unfolding kernel
sample_result = refl

-- A run whose provider does not fit its instrument throws.
mismatch :
    optimize_commitment_run
      (record sample_run { provider = azure })
      sample_snapshot
      sample_forecast
      sample_items
    ≡ none
unfolding kernel
mismatch = refl

first_is_best_example : (fair.feasible ≡ true) × All (NoBetter fair) (fair ∷ dear ∷ [])
first_is_best_example =
    optimize_commitment_run-first_is_best sample_run sample_snapshot sample_forecast sample_items
      (fair ∷ dear ∷ []) sample_result refl

run-IsSound_example :
    (policy : PolicySnapshot) × (policy_snapshot sample_snapshot ≡ some policy)
    × All (IsSound sample_run policy) (fair ∷ dear ∷ [])
run-IsSound_example =
    optimize_commitment_run-IsSound sample_run sample_snapshot sample_forecast sample_items
      (fair ∷ dear ∷ []) sample_result

abbrev strict : PolicySnapshot
strict = record {
  max_downside_loss_cents = pos 5000;
  min_expected_savings_cents = pos 100;
  max_utilization_gap_bps = pos 2000;
  approval_threshold_cents = pos 1000;
  liquidity_penalty_bps = pos 50;
}

abbrev gap_too_wide : Economics
gap_too_wide = record {
  commitment = pos 10000;
  expected = pos 500;
  p95_downside = pos 10;
  utilization_p50 = pos 7999;
  utilization_p95 = pos 9000;
}

abbrev point : ForecastPoint
point = record {
  month = codes "2026-01";
  provider = aws;
  service_code = codes "ec2";
  region = codes "eu";
  forecast_on_demand_cost_cents = codes "1";
}

feasible_iff_example :
    ((candidate_of sample_run strict point
        (sample_item (codes "s") (codes "1"))
        gap_too_wide).feasible
      ≡ true)
    ↔ ((pos 10 ≤ℤ pos 5000) × (pos 100 ≤ℤ pos 500) × (pos 10000 -ℤ pos 7999 ≤ℤ pos 2000))
feasible_iff_example =
    candidate_of-feasible_iff sample_run strict point (sample_item (codes "s") (codes "1"))
      gap_too_wide
