-- ===== src/Backtests/Replay.antt =====
-- core/backtests/backtest-worker.ts: the monthly totals, the replay of a baseline and the metrics.
-- Amounts that the source prints to decimal texts and reads back with `BigInt` stay integers.
use cloud_commitment_portfol.Base.{
  ℕ, zero, suc, Bool, true, false, ◌&&◌, Option, none, some, List, [], ◌∷◌, ◌++◌, map, length,
  get_elem?, if◌then◌else◌, ◌>>=◌,
}
use cloud_commitment_portfol.Base.Int.{
  ℤ, pos, ◌+ℤ◌, ◌-ℤ◌, ◌*ℤ◌, neg, quot, ltb_ℤ, leb_ℤ, eqb_ℤ, sum_from,
}
use cloud_commitment_portfol.Base.Sort.{sort}
use cloud_commitment_portfol.Base.Text.{Text, codes, text_eq, compare_text, big_int}
use cloud_commitment_portfol.Base.Json.{Fields, member, object_at, as_integer}

-- `BacktestBaseline`; the replay takes the first three.
pub data Baseline : Type 0 where
  no_commitment last_month_steady_state seventy_percent_utilization custom : Baseline

unfoldable pub baseline_eq : Baseline → Baseline → Bool
baseline_eq no_commitment no_commitment = true
baseline_eq last_month_steady_state last_month_steady_state = true
baseline_eq seventy_percent_utilization seventy_percent_utilization = true
baseline_eq custom custom = true
baseline_eq _ _ = false

-- `BacktestUsageMonth`, the members that the worker reads.
pub record UsageMonth : Type 0 where
  pub month : Text
  pub on_demand_cost_cents : Text
  pub realized_cost_cents : Text
  pub line_item_count : ℕ

pub record MonthlyTotal : Type 0 where
  pub month : Text
  pub on_demand_cost_cents : ℤ
  pub realized_cost_cents : ℤ

pub record ReplayMonth : Type 0 where
  pub month : Text
  pub on_demand_cost_cents : ℤ
  pub realized_cost_cents : ℤ
  pub simulated_commitment_cents : ℤ
  pub simulated_cost_cents : ℤ
  pub simulated_savings_cents : ℤ
  pub regret_cents : ℤ
  pub prior_months_seen : ℕ
  pub latest_visible_month : Option Text

pub record ReplayResult : Type 0 where
  pub baseline : Baseline
  pub total_on_demand_cost_cents : ℤ
  pub total_realized_cost_cents : ℤ
  pub simulated_total_cost_cents : ℤ
  pub simulated_savings_cents : ℤ
  pub regret_cents : ℤ
  pub downside_loss_cents : ℤ
  pub monthly_results : List ReplayMonth

-- `total`.
unfoldable pub total : List ℤ → ℤ
unfolding sum_from
total values = sum_from (pos 0) values

-- `mean`; the source calls it on a list that is not empty.
unfoldable pub mean : List ℤ → ℤ
unfolding total
mean values = let count = pos (length values) in quot (total values +ℤ quot count (pos 2)) count

-- The entry of the map for the row's month, made with 0n where there is none, and added to.
unfoldable pub add_month : Text → ℤ → ℤ → List MonthlyTotal → List MonthlyTotal
add_month month on_demand realized [] =
    record {
      month = month;
      on_demand_cost_cents = pos 0 +ℤ on_demand;
      realized_cost_cents = pos 0 +ℤ realized;
    }
    ∷ []
add_month month on_demand realized (t ∷ totals) =
    if text_eq t.month month
    then record t {
      on_demand_cost_cents = t.on_demand_cost_cents +ℤ on_demand;
      realized_cost_cents = t.realized_cost_cents +ℤ realized;
    }
      ∷ totals
    else t ∷ add_month month on_demand realized totals

-- The loop of `monthlyTotals` over the rows; `none` is the SyntaxError of `BigInt`.
unfoldable pub totals_from : List MonthlyTotal → List UsageMonth → Option (List MonthlyTotal)
unfolding add_month
totals_from totals [] = some totals
totals_from totals (row ∷ rows) = do
  on_demand ← big_int row.on_demand_cost_cents
  realized ← big_int row.realized_cost_cents
  totals_from (add_month row.month on_demand realized totals) rows

-- `localeCompare` of the months, which are texts of digits and dashes: the order of code units.
unfoldable pub compare_months : MonthlyTotal → MonthlyTotal → ℤ
compare_months left right = compare_text left.month right.month

-- `monthlyTotals`.
unfoldable pub monthly_totals : List UsageMonth → Option (List MonthlyTotal)
unfolding totals_from
monthly_totals rows = do totals ← totals_from [] rows; some (sort compare_months totals)

abbrev pub discount_of : ℤ → ℤ
discount_of value = if leb_ℤ (pos 0) value && leb_ℤ value (pos 10000) then value else pos 3000

abbrev pub configured_discount : Fields → ℤ
configured_discount snapshot =
    as_integer
      (member (codes "backtest_discount_bps")
        (object_at (object_at snapshot (codes "policy")) (codes "config")))
      (pos 3000)

-- `backtestDiscountBps`. A value that is not an integer number falls back like one out of range.
unfoldable pub backtest_discount_bps : Fields → ℤ
backtest_discount_bps snapshot = discount_of (configured_discount snapshot)

-- `priorActuals.at(-1)!`, where the list is not empty.
abbrev last_actual : List ℤ → ℤ
last_actual [] = pos 0
last_actual (x ∷ []) = x
last_actual (x ∷ y ∷ xs) = last_actual (y ∷ xs)

abbrev commitment_after : Baseline → List ℤ → ℤ
commitment_after no_commitment prior_actuals = pos 0
commitment_after last_month_steady_state prior_actuals = last_actual prior_actuals
commitment_after seventy_percent_utilization prior_actuals =
    quot (mean prior_actuals *ℤ pos 70) (pos 100)
commitment_after custom prior_actuals = mean prior_actuals

-- `commitmentForBaseline`.
unfoldable pub commitment_for_baseline : Baseline → List ℤ → ℤ
unfolding mean
commitment_for_baseline baseline [] = pos 0
commitment_for_baseline baseline (a ∷ prior_actuals) = commitment_after baseline (a ∷ prior_actuals)

-- `simulatedCost`.
unfoldable pub simulated_cost : ℤ → ℤ → ℤ → ℤ
simulated_cost on_demand commitment discount_bps =
    if eqb_ℤ commitment (pos 0)
    then on_demand
    else let covered = if ltb_ℤ on_demand commitment then on_demand else commitment in
      let uncovered = on_demand -ℤ covered in
      uncovered +ℤ quot (commitment *ℤ (pos 10000 -ℤ discount_bps) +ℤ pos 5000) (pos 10000)

-- `months[monthlyResults.length - 1]?.month ?? null`, after so many results.
abbrev pub month_before : List MonthlyTotal → ℕ → Option Text
month_before months zero = none
month_before months (suc k) = do m ← get_elem? months k; some m.month

-- The object that one turn of the loop of `replayBaseline` pushes.
unfoldable pub replay_month : Baseline → ℤ → List MonthlyTotal → List ℤ → MonthlyTotal → ReplayMonth
unfolding commitment_for_baseline simulated_cost
replay_month baseline discount_bps months prior_actuals month =
    let commitment = commitment_for_baseline baseline prior_actuals in
    let cost = simulated_cost month.on_demand_cost_cents commitment discount_bps in
    let savings = month.on_demand_cost_cents -ℤ cost in
    record {
      month = month.month;
      on_demand_cost_cents = month.on_demand_cost_cents;
      realized_cost_cents = month.realized_cost_cents;
      simulated_commitment_cents = commitment;
      simulated_cost_cents = cost;
      simulated_savings_cents = savings;
      regret_cents = if ltb_ℤ savings (pos 0) then neg savings else pos 0;
      prior_months_seen = length prior_actuals;
      latest_visible_month = month_before months (length prior_actuals);
    }

-- The loop itself: `priorActuals` so far, and the months still to come.
unfoldable pub replay_from :
    Baseline → ℤ → List MonthlyTotal → List ℤ → List MonthlyTotal → List ReplayMonth
unfolding replay_month
replay_from baseline discount_bps months prior_actuals [] = []
replay_from baseline discount_bps months prior_actuals (month ∷ rest) =
    replay_month baseline discount_bps months prior_actuals month
    ∷ replay_from baseline discount_bps months (prior_actuals ++ month.on_demand_cost_cents ∷ [])
        rest

unfoldable pub replay_months : Baseline → ℤ → List MonthlyTotal → List ReplayMonth
unfolding replay_from
replay_months baseline discount_bps months = replay_from baseline discount_bps months [] months

-- `replayBaseline`.
unfoldable pub replay_baseline : Baseline → List MonthlyTotal → ℤ → ReplayResult
unfolding replay_months total
replay_baseline baseline months discount_bps =
    let results = replay_months baseline discount_bps months in
    let regret = total (map (λ (r : ReplayMonth). r.regret_cents) results) in
    record {
      baseline = baseline;
      total_on_demand_cost_cents =
          total (map (λ (m : MonthlyTotal). m.on_demand_cost_cents) months);
      total_realized_cost_cents = total (map (λ (m : MonthlyTotal). m.realized_cost_cents) months);
      simulated_total_cost_cents =
          total (map (λ (r : ReplayMonth). r.simulated_cost_cents) results);
      simulated_savings_cents =
          total (map (λ (r : ReplayMonth). r.simulated_savings_cents) results);
      regret_cents = regret;
      downside_loss_cents = regret;
      monthly_results = results;
    }
