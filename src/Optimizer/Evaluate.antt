-- ===== src/Optimizer/Evaluate.antt =====
-- The economic kernel: what a price item would cost and save over the forecast, which policy
-- constraints bind, and the order of the candidates.
pub mod Kernel
pub mod Ranking
pub mod Samples
pub mod Tests
use cloud_commitment_portfol.Base.{
  ℕ, ◌+◌, List, [], ◌∷◌, ◌++◌, map, Bool, true, false, not, ◌&&◌, Option, none, some, length, ltb,
  map_throws, filter, if◌then◌else◌, ◌>>=◌, ◌>>◌,
}
use cloud_commitment_portfol.Base.Int.{
  ℤ, pos, negsuc, ◌+ℤ◌, ◌-ℤ◌, ◌*ℤ◌, neg, quot, ltb_ℤ, leb_ℤ, eqb_ℤ,
}
use cloud_commitment_portfol.Base.Sort.{sort, sort_big_int}
use cloud_commitment_portfol.Base.Text.{Text, codes, big_int}
use cloud_commitment_portfol.Base.Json.{Fields}
use cloud_commitment_portfol.Optimizer.Numeric.{
  p50, p95, percentile, rounded_div, mean_rounded, min_big_int, format_bps,
}
use cloud_commitment_portfol.Optimizer.Types.{
  Provider, Instrument, provider_eq, instrument_eq, RiskBand, low, medium, high, Constraint,
  risk_budget, minimum_expected_savings, utilization_gap, WorkerRun, PriceItem, ForecastPoint,
  Candidate, PolicySnapshot, aws, azure, gcp, aws_compute_savings_plan, aws_reserved_instance,
  azure_savings_plan, azure_reservation, gcp_committed_use_discount,
}
use cloud_commitment_portfol.Optimizer.Policy.{
  policy_snapshot, forecast_points, points_for_item, service_code,
}

abbrev pub hours_per_month : ℤ
hours_per_month = pos 730

abbrev push_if : Bool → Constraint → List Constraint → List Constraint
push_if b c cs = if b then c ∷ cs else cs

-- Each test pushes its text or nothing, in this order.
unfoldable pub binding_constraints : PolicySnapshot → ℤ → ℤ → ℤ → List Constraint
binding_constraints policy expected p95_downside utilization_gap_bps =
    push_if (ltb_ℤ policy.max_downside_loss_cents p95_downside) risk_budget (
      push_if (ltb_ℤ expected policy.min_expected_savings_cents) minimum_expected_savings
        (push_if (ltb_ℤ policy.max_utilization_gap_bps utilization_gap_bps) utilization_gap []))

unfoldable pub risk_band : ℤ → ℤ → RiskBand
risk_band p95_downside max_downside_loss_cents =
    if eqb_ℤ p95_downside (pos 0)
    then low
    else if leb_ℤ p95_downside max_downside_loss_cents
    then medium
    else high

abbrev pub is_empty {ℓ} : {A : Type ℓ} → List A → Bool
is_empty [] = true
is_empty (x ∷ xs) = false

-- The body of `nets`: what one month would save.
unfoldable pub net_of : ℤ → ℤ → ℤ → ℤ → ℤ → ℤ
net_of commitment monthly_cost upfront penalty cost =
    let unused_waste = if ltb_ℤ cost commitment then commitment -ℤ cost else pos 0 in
    cost -ℤ monthly_cost -ℤ unused_waste -ℤ upfront -ℤ penalty

unfoldable pub loss_of : ℤ → ℤ
loss_of value = if ltb_ℤ value (pos 0) then neg value else pos 0

unfoldable pub utilization_of : ℤ → ℤ → ℤ
utilization_of commitment cost =
    if eqb_ℤ commitment (pos 0)
    then pos 0
    else quot (min_big_int cost commitment *ℤ pos 10000) commitment

-- What `evaluateItem` computes before it builds the candidate.
pub record Economics : Type 0 where
  pub commitment : ℤ
  pub expected : ℤ
  pub p95_downside : ℤ
  pub utilization_p50 : ℤ
  pub utilization_p95 : ℤ

-- The computation from the costs in ascending order and the three amounts of the item.
unfoldable pub economics : List ℤ → ℤ → ℤ → ℤ → Economics
unfolding percentile net_of loss_of utilization_of mean_rounded
economics eligible_costs monthly_cost upfront penalty =
    let commitment = percentile eligible_costs p50 in
    let nets = map (net_of commitment monthly_cost upfront penalty) eligible_costs in
    let downside = sort sort_big_int (map loss_of nets) in
    let utilizations = sort sort_big_int (map (utilization_of commitment) eligible_costs) in
    record {
      commitment = commitment;
      expected = mean_rounded nets;
      p95_downside = percentile downside p95;
      utilization_p50 = percentile utilizations p50;
      utilization_p95 = percentile utilizations p95;
    }

-- The candidate that `evaluateItem` returns.
unfoldable pub candidate_of :
    WorkerRun → PolicySnapshot → ForecastPoint → PriceItem → Economics → Candidate
unfolding binding_constraints risk_band
candidate_of run policy point item e =
    let binding =
      binding_constraints policy e.expected e.p95_downside (pos 10000 -ℤ e.utilization_p50) in
    record {
      provider = run.provider;
      instrument = run.instrument;
      service_code = service_code point item;
      region = item.region;
      term_months = item.term_months;
      payment_option = item.payment_option;
      commitment_amount_cents = e.commitment;
      expected_savings_cents = if ltb_ℤ (pos 0) e.expected then e.expected else pos 0;
      p95_downside_loss_cents = e.p95_downside;
      utilization_p50_pct = format_bps e.utilization_p50;
      utilization_p95_pct = format_bps e.utilization_p95;
      confidence_score = codes "0.9000";
      risk_band = risk_band e.p95_downside policy.max_downside_loss_cents;
      feasible = is_empty binding;
      binding_constraints = binding;
    }

-- The computation of `evaluateItem`, from the integers that `BigInt` has read.
unfoldable pub item_economics : PolicySnapshot → PriceItem → List ℤ → ℤ → ℤ → Economics
item_economics policy item costs hourly upfront =
    economics (sort sort_big_int costs) (hourly *ℤ hours_per_month)
      (rounded_div upfront (pos item.term_months))
      (rounded_div (upfront *ℤ policy.liquidity_penalty_bps) (pos 10000))

unfoldable pub evaluated :
    WorkerRun → PolicySnapshot → ForecastPoint → PriceItem → List ℤ → ℤ → ℤ → List Candidate
evaluated run policy point item costs hourly upfront =
    candidate_of run policy point item (item_economics policy item costs hourly upfront) ∷ []

abbrev cost_of : ForecastPoint → Option ℤ
cost_of point = big_int point.forecast_on_demand_cost_cents

-- `evaluateItem`; `none` is the SyntaxError of `BigInt`.
unfoldable pub evaluate_item :
    WorkerRun → PolicySnapshot → List ForecastPoint → PriceItem → Option (List Candidate)
evaluate_item run policy [] item = some []
evaluate_item run policy (point ∷ points) item = do
  costs ← map_throws cost_of (point ∷ points)
  hourly ← big_int item.hourly_rate_cents
  upfront ← big_int item.upfront_cents
  some (evaluated run policy point item costs hourly upfront)

-- `compareCandidates`.
unfoldable pub compare_candidates : Candidate → Candidate → ℤ
compare_candidates left right =
    if not left.feasible && right.feasible
    then pos 1
    else if left.feasible && not right.feasible
    then negsuc 0
    else if ltb_ℤ left.expected_savings_cents right.expected_savings_cents
    then pos 1
    else if ltb_ℤ right.expected_savings_cents left.expected_savings_cents
    then negsuc 0
    else if eqb_ℤ left.p95_downside_loss_cents right.p95_downside_loss_cents
    then pos 0
    else if ltb_ℤ right.p95_downside_loss_cents left.p95_downside_loss_cents
    then pos 1
    else negsuc 0

abbrev pub is_feasible : Candidate → Bool
is_feasible c = c.feasible

-- `flatMap` with a body that may throw.
unfoldable pub flat_map_throws {ℓ κ} :
    {A : Type ℓ} {B : Type κ} → (A → Option (List B)) → List A → Option (List B)
flat_map_throws f [] = some []
flat_map_throws f (x ∷ xs) = do ys ← f x; zs ← flat_map_throws f xs; some (ys ++ zs)

unfoldable pub has_region : ForecastPoint → Bool
has_region point = ltb 0 (length point.region)

unfoldable pub run_points : WorkerRun → Fields → List ForecastPoint
unfolding has_region provider_eq forecast_points
run_points run forecast =
    filter (λ point. provider_eq point.provider run.provider && has_region point)
      (forecast_points forecast)

-- `optimizeCommitmentInstrument`.
unfoldable pub optimize_commitment_instrument :
    WorkerRun → Fields → Fields → List PriceItem → Option (List Candidate)
unfolding flat_map_throws
optimize_commitment_instrument run snapshot forecast price_items = do
  let points = run_points run forecast
  policy ← policy_snapshot snapshot
  candidates ←
      flat_map_throws (λ item. evaluate_item run policy (points_for_item points item) item)
        price_items
  some (sort compare_candidates candidates)

-- `requireInstrument`; `none` is "optimizer instrument mismatch".
unfoldable pub require_instrument : WorkerRun → Provider → Instrument → Option (Unit {0})
unfolding provider_eq instrument_eq
require_instrument run provider instrument =
    if provider_eq run.provider provider && instrument_eq run.instrument instrument
    then some tt
    else none

unfoldable pub optimize_aws_compute_savings_plan :
    WorkerRun → Fields → Fields → List PriceItem → Option (List Candidate)
unfolding require_instrument
optimize_aws_compute_savings_plan run snapshot forecast price_items =
    require_instrument run aws aws_compute_savings_plan
    >> optimize_commitment_instrument run snapshot forecast price_items

unfoldable pub optimize_aws_reserved_instance :
    WorkerRun → Fields → Fields → List PriceItem → Option (List Candidate)
unfolding require_instrument
optimize_aws_reserved_instance run snapshot forecast price_items =
    require_instrument run aws aws_reserved_instance
    >> optimize_commitment_instrument run snapshot forecast price_items

unfoldable pub optimize_azure_savings_plan :
    WorkerRun → Fields → Fields → List PriceItem → Option (List Candidate)
unfolding require_instrument
optimize_azure_savings_plan run snapshot forecast price_items =
    require_instrument run azure azure_savings_plan
    >> optimize_commitment_instrument run snapshot forecast price_items

unfoldable pub optimize_azure_reservation :
    WorkerRun → Fields → Fields → List PriceItem → Option (List Candidate)
unfolding require_instrument
optimize_azure_reservation run snapshot forecast price_items =
    require_instrument run azure azure_reservation
    >> optimize_commitment_instrument run snapshot forecast price_items

unfoldable pub optimize_gcp_committed_use_discount :
    WorkerRun → Fields → Fields → List PriceItem → Option (List Candidate)
unfolding require_instrument
optimize_gcp_committed_use_discount run snapshot forecast price_items =
    require_instrument run gcp gcp_committed_use_discount
    >> optimize_commitment_instrument run snapshot forecast price_items

optimizer_for : Instrument → WorkerRun → Fields → Fields → List PriceItem → Option (List Candidate)
optimizer_for aws_compute_savings_plan = optimize_aws_compute_savings_plan
optimizer_for aws_reserved_instance = optimize_aws_reserved_instance
optimizer_for azure_savings_plan = optimize_azure_savings_plan
optimizer_for azure_reservation = optimize_azure_reservation
optimizer_for gcp_committed_use_discount = optimize_gcp_committed_use_discount

-- `optimizeCommitmentRun`: the switch on `run.instrument`.
unfoldable pub optimize_commitment_run :
    WorkerRun → Fields → Fields → List PriceItem → Option (List Candidate)
unfolding optimizer_for optimize_aws_compute_savings_plan optimize_aws_reserved_instance
    optimize_azure_savings_plan optimize_azure_reservation optimize_gcp_committed_use_discount
optimize_commitment_run run snapshot forecast price_items =
    optimizer_for run.instrument run snapshot forecast price_items
