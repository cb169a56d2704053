-- ===== src/Backtests/Tests.antt =====
-- A replay of three months, and the theorems there.
use cloud_commitment_portfol.Base.{
  ℕ, ◌≡◌, ◌≤◌, refl, ◌⊎◌, some, List, [], ◌∷◌, map, map_throws, length, get_elem?, All, arith,
  if◌then◌else◌,
}
use cloud_commitment_portfol.Base.Int.{
  ℤ, pos, negsuc, ◌+ℤ◌, ◌-ℤ◌, ◌*ℤ◌, neg, quot, ◌≤ℤ◌, ltb_ℤ, sum, sum_from,
}
use cloud_commitment_portfol.Base.Sort.{sort}
use cloud_commitment_portfol.Base.Text.{Text, codes, text_eq, compare_text, big_int}
use cloud_commitment_portfol.Backtests.Replay.{
  no_commitment, last_month_steady_state, seventy_percent_utilization, UsageMonth, MonthlyTotal,
  ReplayMonth, ReplayResult, total, mean, commitment_for_baseline, simulated_cost, replay_month,
  replay_from, replay_months, replay_baseline, monthly_totals, totals_from, add_month,
  compare_months,
}
use cloud_commitment_portfol.Backtests.Artifact.{best_of, best_from, better, baseline_results}
use cloud_commitment_portfol.Backtests.Leakage.{replay_months-no_leakage}
use cloud_commitment_portfol.Backtests.Savings.{
  replay_baseline-balances, best_of-IsBest, simulated_cost-bounds,
}
use cloud_commitment_portfol.Backtests.Totals.{costs_of, entries, monthly_totals-conserve}
use cloud_commitment_portfol.Base.{Bool, true, false, none}
use cloud_commitment_portfol.Base.Json.{obj, end}
use cloud_commitment_portfol.Base.Action.{ok}
use cloud_commitment_portfol.Backtests.Repository.{
  BacktestRun, queued, completed, next_queued_backtest, update_backtests, run_status_eq,
}
use cloud_commitment_portfol.Backtests.Artifact.{build_metrics, selected_of, line_items}
use cloud_commitment_portfol.Backtests.Worker.{
  Tables, Call, processed, process_next, claim_next_queued_backtest, claim_selected,
  process_claimed, attempt, with_snapshot, with_metrics, read_json, put, complete_backtest,
  backtest_key,
}
use cloud_commitment_portfol.Backtests.Worker.Outcome.{Outcome}

worker : Unit {0}
unfolding process_next claim_next_queued_backtest claim_selected process_claimed attempt
    with_snapshot with_metrics read_json put complete_backtest backtest_key next_queued_backtest
    update_backtests run_status_eq build_metrics selected_of line_items text_eq sort
worker = tt

replay : Unit {0}
unfolding replay_baseline replay_months replay_from replay_month commitment_for_baseline
    simulated_cost mean total sum_from ◌+ℤ◌ ◌-ℤ◌ ◌*ℤ◌ neg quot best_of best_from better
    baseline_results monthly_totals totals_from add_month compare_months sort big_int text_eq
    compare_text
replay = tt

abbrev month_total : ℕ → ℕ → MonthlyTotal
month_total name cost = record {
  month = name ∷ [];
  on_demand_cost_cents = pos cost;
  realized_cost_cents = pos cost;
}

abbrev history : List MonthlyTotal
history = month_total 1 1000 ∷ month_total 2 1000 ∷ month_total 3 500 ∷ []

abbrev usage : List UsageMonth
usage =
    record {
      month = codes "2026-02";
      on_demand_cost_cents = codes "70";
      realized_cost_cents = codes "60";
      line_item_count = 2;
    }
    ∷ record {
      month = codes "2026-01";
      on_demand_cost_cents = codes "5";
      realized_cost_cents = codes "5";
      line_item_count = 1;
    }
    ∷ record {
      month = codes "2026-02";
      on_demand_cost_cents = codes "30";
      realized_cost_cents = codes "20";
      line_item_count = 1;
    }
    ∷ []

abbrev usage_totals : List MonthlyTotal
usage_totals =
    record { month = codes "2026-01"; on_demand_cost_cents = pos 5; realized_cost_cents = pos 5 }
    ∷ record {
      month = codes "2026-02";
      on_demand_cost_cents = pos 100;
      realized_cost_cents = pos 80;
    }
    ∷ []

usage_adds_up : monthly_totals usage ≡ some usage_totals
unfolding replay
usage_adds_up = refl

-- A steady month saves 300 of 1000, the month that halves loses 200 of 500.
steady_savings :
    map
      (λ (r : ReplayMonth). r.simulated_savings_cents)
      (replay_months last_month_steady_state (pos 3000) history)
    ≡ pos 0 ∷ pos 300 ∷ negsuc 199 ∷ []
unfolding replay
steady_savings = refl

best_is_seventy : (best_of history (pos 3000)).baseline ≡ seventy_percent_utilization
unfolding replay
best_is_seventy = refl

no_leakage_example :
    (row : ReplayMonth) × (get_elem? (replay_months last_month_steady_state (pos 3000) history) 1
      ≡ some row)
    × (row.month ≡ 2 ∷ [])
    × (row.simulated_commitment_cents
        ≡ commitment_for_baseline last_month_steady_state (pos 1000 ∷ []))
    × (row.prior_months_seen ≡ 1)
    × (row.latest_visible_month ≡ some (1 ∷ []))
    × (row.on_demand_cost_cents ≡ pos 1000)
    × (row.realized_cost_cents ≡ (month_total 2 1000).realized_cost_cents)
    × (row.simulated_cost_cents
        ≡ simulated_cost
            (pos 1000)
            (commitment_for_baseline last_month_steady_state (pos 1000 ∷ []))
            (pos 3000))
    × (row.simulated_savings_cents ≡ pos 1000 -ℤ row.simulated_cost_cents)
    × (row.regret_cents ≡ (
        if ltb_ℤ row.simulated_savings_cents (pos 0)
        then neg row.simulated_savings_cents
        else pos 0))
no_leakage_example =
    replay_months-no_leakage last_month_steady_state (pos 3000) (month_total 1 1000 ∷ [])
      (month_total 2 1000) (month_total 3 500 ∷ [])

balances_example :
    let r = replay_baseline last_month_steady_state history (pos 3000) in
    (r.simulated_savings_cents ≡ r.total_on_demand_cost_cents -ℤ r.simulated_total_cost_cents)
    × (pos 0 ≤ℤ r.regret_cents)
    × (pos 0 ≤ℤ r.simulated_savings_cents +ℤ r.regret_cents)
    × (r.downside_loss_cents ≡ r.regret_cents)
balances_example = replay_baseline-balances last_month_steady_state history (pos 3000)

IsBest_example :
    let best = best_of history (pos 3000) in
    let results = baseline_results history (pos 3000) in
    All (λ (r : ReplayResult). r.simulated_savings_cents ≤ℤ best.simulated_savings_cents) results
    × (pos 0 ≤ℤ best.simulated_savings_cents)
    × ((best ≡ replay_baseline no_commitment history (pos 3000))
        ⊎ ((best ≡ replay_baseline last_month_steady_state history (pos 3000))
            ⊎ (best ≡ replay_baseline seventy_percent_utilization history (pos 3000))))
IsBest_example = best_of-IsBest history (pos 3000)

cost_bounds_example :
    let c = simulated_cost (pos 100) (pos 80) (pos 3000) in
    (pos 100 -ℤ pos 80 ≤ℤ c) × (c ≤ℤ (if ltb_ℤ (pos 100) (pos 80) then pos 80 else pos 100))
cost_bounds_example =
    simulated_cost-bounds (pos 100) (pos 80) (pos 3000) (omega arith) (omega arith) (omega arith)
      (omega arith)

conserve_example :
    (entries (codes "2026-02") usage_totals ≤ 1)
    × ((costs : List (ℤ × ℤ)) × (map_throws costs_of usage ≡ some costs)
        × (sum (map (λ (t : MonthlyTotal). t.on_demand_cost_cents) usage_totals)
            ≡ sum (map (λ c. c.0) costs))
        × (sum (map (λ (t : MonthlyTotal). t.realized_cost_cents) usage_totals)
            ≡ sum (map (λ c. c.1) costs)))
conserve_example = monthly_totals-conserve (codes "2026-02") usage usage_totals usage_adds_up

abbrev waiting : BacktestRun
waiting = record {
  id = codes "b1";
  tenant_id = codes "t1";
  name = codes "q1";
  policy_id = codes "p1";
  baseline = last_month_steady_state;
  window_start = codes "2026-01-01";
  window_end = codes "2026-02-28";
  status = queued;
  input_snapshot_uri = codes "in";
  output_uri = none;
  metrics = end;
  error_details = end;
  created_by_user_id = none;
  created_at = 1;
}

abbrev tables : Tables
tables = record { runs = waiting ∷ []; reports = []; objects = (codes "in", obj end) ∷ [] }

abbrev some_usage : BacktestRun → List UsageMonth
some_usage run = usage

abbrev no_faults : Call → Bool
no_faults _ = false

abbrev unlocked : Text → Bool
unlocked _ = false

-- The one waiting run is completed and has its report.
backtest_completes :
    ((process_next no_faults unlocked some_usage tables).0
      ≡ ok (processed (codes "b1") completed (some (codes "backtests/b1/output.json")) true))
    × (map
          (λ (r : BacktestRun). r.status)
          (process_next no_faults unlocked some_usage tables).1.runs
        ≡ completed ∷ [])
    × (length (process_next no_faults unlocked some_usage tables).1.reports ≡ 1)
unfolding replay worker
backtest_completes = (refl, refl, refl)
