-- ===== src/Backtests/Artifact.antt =====
-- core/backtests/backtest-worker.ts: `buildBacktestArtifact`, and its document as JSON.
use cloud_commitment_portfol.Base.{
  ℕ, ◌+◌, true, Option, none, some, List, [], ◌∷◌, map, length, find?, if◌then◌else◌, ◌>>=◌,
}
use cloud_commitment_portfol.Base.Int.{ℤ, pos, ltb_ℤ}
use cloud_commitment_portfol.Base.Text.{Text, codes, to_text}
use cloud_commitment_portfol.Base.Json.{
  Json, null, bool, int, str, arr, obj, Fields, end, field, of_items,
}
use cloud_commitment_portfol.Backtests.Replay.{
  Baseline, no_commitment, last_month_steady_state, seventy_percent_utilization, custom,
  baseline_eq, UsageMonth, MonthlyTotal, ReplayMonth, ReplayResult, total, monthly_totals,
  backtest_discount_bps, replay_baseline,
}
use cloud_commitment_portfol.Backtests.Repository.{BacktestRun}

pub record Metrics : Type 0 where
  pub baseline : Baseline
  pub replay_months : ℕ
  pub source_line_items : ℕ
  pub total_on_demand_cost_cents : ℤ
  pub selected : Option ReplayResult
  pub best : ReplayResult
  pub baseline_results : List ReplayResult

-- The three replays, in the order of the source.
unfoldable pub baseline_results : List MonthlyTotal → ℤ → List ReplayResult
baseline_results months discount_bps =
    replay_baseline no_commitment months discount_bps
    ∷ replay_baseline last_month_steady_state months discount_bps
    ∷ replay_baseline seventy_percent_utilization months discount_bps
    ∷ []

-- The callback of the `reduce` for `best`.
unfoldable pub better : ReplayResult → ReplayResult → ReplayResult
better current candidate =
    if ltb_ℤ current.simulated_savings_cents candidate.simulated_savings_cents
    then candidate
    else current

unfoldable pub best_from : ReplayResult → List ReplayResult → ReplayResult
best_from current [] = current
best_from current (candidate ∷ rest) = best_from (better current candidate) rest

-- `reduce` without an initial value starts from the first result, here that of no commitment.
unfoldable pub best_of : List MonthlyTotal → ℤ → ReplayResult
best_of months discount_bps = best_from (replay_baseline no_commitment months discount_bps) (
    replay_baseline last_month_steady_state months discount_bps
    ∷ replay_baseline seventy_percent_utilization months discount_bps
    ∷ [])

unfoldable pub selected_of : Baseline → List ReplayResult → Option ReplayResult
unfolding baseline_eq
selected_of baseline results =
    find? (λ (result : ReplayResult). baseline_eq result.baseline baseline) results

unfoldable pub line_items : ℕ → List UsageMonth → ℕ
line_items sum [] = sum
line_items sum (row ∷ rows) = line_items (sum + row.line_item_count) rows

-- The metrics of `buildBacktestArtifact`; `none` where `BigInt` throws.
unfoldable pub build_metrics : Baseline → Fields → List UsageMonth → Option Metrics
unfolding line_items
build_metrics baseline input_snapshot usage_months = do
  months ← monthly_totals usage_months
  let discount_bps = backtest_discount_bps input_snapshot
  let results = baseline_results months discount_bps
  some (record {
    baseline = baseline;
    replay_months = length months;
    source_line_items = line_items 0 usage_months;
    total_on_demand_cost_cents = total (map (λ (m : MonthlyTotal). m.on_demand_cost_cents) months);
    selected = selected_of baseline results;
    best = best_of months discount_bps;
    baseline_results = results;
  })

unfoldable pub baseline_text : Baseline → Text
baseline_text no_commitment = codes "no_commitment"
baseline_text last_month_steady_state = codes "last_month_steady_state"
baseline_text seventy_percent_utilization = codes "seventy_percent_utilization"
baseline_text custom = codes "custom"

abbrev cents : ℤ → Json
cents n = str (to_text n)

abbrev month_json : Option Text → Json
month_json none = null
month_json (some m) = str m

unfoldable pub replay_month_json : ReplayMonth → Json
replay_month_json r =
    let inputs =
      field (codes "prior_months_seen") (int (pos r.prior_months_seen))
        (field (codes "latest_visible_month") (month_json r.latest_visible_month) end) in
    obj (
      field (codes "month") (str r.month) (
        field (codes "on_demand_cost_cents") (cents r.on_demand_cost_cents) (
          field (codes "realized_cost_cents") (cents r.realized_cost_cents) (
            field (codes "simulated_commitment_cents") (cents r.simulated_commitment_cents) (
              field (codes "simulated_cost_cents") (cents r.simulated_cost_cents) (
                field (codes "simulated_savings_cents") (cents r.simulated_savings_cents) (
                  field (codes "regret_cents") (cents r.regret_cents)
                    (field (codes "decision_inputs") (obj inputs) end))))))))

-- One entry of the metrics' `baseline_results`, and of the artifact's, which has the totals too.
abbrev months_field : ReplayResult → Fields
months_field r =
    field (codes "monthly_results") (arr (of_items (map replay_month_json r.monthly_results))) end

unfoldable pub summary_json : ReplayResult → Json
unfolding replay_month_json baseline_text
summary_json r = obj (
    field (codes "baseline") (str (baseline_text r.baseline)) (
      field (codes "simulated_savings_cents") (cents r.simulated_savings_cents) (
        field (codes "regret_cents") (cents r.regret_cents)
          (field (codes "downside_loss_cents") (cents r.downside_loss_cents) (months_field r)))))

unfoldable pub result_json : ReplayResult → Json
unfolding replay_month_json baseline_text
result_json r = obj (
    field (codes "baseline") (str (baseline_text r.baseline)) (
      field (codes "total_on_demand_cost_cents") (cents r.total_on_demand_cost_cents) (
        field (codes "total_realized_cost_cents") (cents r.total_realized_cost_cents) (
          field (codes "simulated_total_cost_cents") (cents r.simulated_total_cost_cents) (
            field (codes "simulated_savings_cents") (cents r.simulated_savings_cents) (
              field (codes "regret_cents") (cents r.regret_cents) (
                field (codes "downside_loss_cents") (cents r.downside_loss_cents)
                  (months_field r))))))))

-- `selected?.… ?? "0"`.
abbrev selected_cents : Option ReplayResult → (ReplayResult → ℤ) → Json
selected_cents none amount = str (codes "0")
selected_cents (some r) amount = cents (amount r)

unfoldable pub metrics_json : Metrics → Fields
unfolding summary_json baseline_text
metrics_json m = field (codes "baseline") (str (baseline_text m.baseline)) (
    field (codes "replay_months") (int (pos m.replay_months)) (
      field (codes "source_line_items") (int (pos m.source_line_items)) (
        field (codes "total_on_demand_cost_cents") (cents m.total_on_demand_cost_cents) (
          field (codes "selected_simulated_savings_cents")
            (selected_cents m.selected (λ r. r.simulated_savings_cents))
            (field (codes "selected_regret_cents") (selected_cents m.selected (λ r. r.regret_cents))
              (field (codes "selected_downside_loss_cents")
                (selected_cents m.selected (λ r. r.downside_loss_cents))
                (field (codes "best_baseline") (str (baseline_text m.best.baseline)) (
                  field (codes "best_simulated_savings_cents")
                    (cents m.best.simulated_savings_cents)
                    (field (codes "baseline_results")
                      (arr (of_items (map summary_json m.baseline_results)))
                      (field (codes "no_future_leakage") (bool true) end))))))))))

abbrev window : BacktestRun → Json
window run =
    obj
      (field (codes "start") (str run.window_start) (field (codes "end") (str run.window_end) end))

-- `buildBacktestArtifact`, from its metrics.
unfoldable pub artifact_json : BacktestRun → Fields → Metrics → Fields
unfolding metrics_json result_json
artifact_json run input_snapshot metrics =
    field (codes "schema_version") (str (codes "backtest-run-output:v1")) (
      field (codes "backtest_run_id") (str run.id) (
        field (codes "input_snapshot") (obj input_snapshot) (
          field (codes "replay_window") (window run) (
            field (codes "metrics") (obj (metrics_json metrics)) (
              field (codes "baseline_results")
                (arr (of_items (map result_json metrics.baseline_results))) end)))))

-- `reportSnapshot`.
unfoldable pub report_snapshot : BacktestRun → Metrics → Fields
unfolding metrics_json
report_snapshot run metrics = field (codes "contract_version") (str (codes "backtest_summary:v1")) (
    field (codes "backtest_run_id") (str run.id) (
      field (codes "replay_window") (window run)
        (field (codes "metrics") (obj (metrics_json metrics)) end)))
