-- ===== src/Forecasting.antt =====
-- core/forecasting/forecast-worker.ts: the seasonal naive forecast from the usage of past months.
-- `none` is a throw of `BigInt`.
pub mod Dimensions
pub mod Averages
mod Tests
use cloud_commitment_portfol.Base.{
  ℕ, ◌+◌, Bool, true, false, Option, none, some, List, [], ◌∷◌, ◌++◌, map, map_throws, length, take,
  drop, filter, get_or, ltb, ◌==◌, if◌then◌else◌, ◌>>=◌,
}
use cloud_commitment_portfol.Base.Int.{ℤ, pos, ◌+ℤ◌, quot, sum_from}
use cloud_commitment_portfol.Base.Text.{Text, text_eq, split, big_int}

-- `ForecastUsageMonth`, the members that the worker reads.
pub record ForecastUsageMonth : Type 0 where
  pub month : Text
  pub provider : Text
  pub service_code : Text
  pub region : Text
  pub on_demand_cost_cents : Text
  pub line_item_count : ℕ

pub data Basis : Type 0 where
  seasonal_month all_history_average : Basis

pub record ForecastPoint : Type 0 where
  pub month : Text
  pub provider : Text
  pub service_code : Text
  pub region : Text
  pub forecast_on_demand_cost_cents : ℤ
  pub basis : Basis

pub data Warning : Type 0 where
  no_eligible_usage_history low_history_days low_monthly_observations : Warning

abbrev warn_if : Bool → Warning → List Warning → List Warning
warn_if test warning rest = if test then warning ∷ rest else rest

-- `qualityWarnings`.
unfoldable pub quality_warnings : ℕ → ℕ → ℕ → ℕ → List Warning
quality_warnings history_days monthly_observations line_items min_history_days =
    warn_if (line_items == 0) no_eligible_usage_history (
      warn_if (ltb history_days min_history_days) low_history_days
        (warn_if (ltb monthly_observations 3) low_monthly_observations []))

-- `dimensionKey`, with U+0000 between the parts.
unfoldable pub dimension_key : ForecastUsageMonth → Text
dimension_key m = m.provider ++ (0 ∷ (m.service_code ++ (0 ∷ m.region)))

-- An entry of the map from keys to histories, in the order of insertion.
abbrev pub Dimension : Type 0
Dimension = Text × List ForecastUsageMonth

-- `history.push(month)` on the entry for the key, made where there is none.
unfoldable pub push_month : Text → ForecastUsageMonth → List Dimension → List Dimension
push_month key month [] = (key, month ∷ []) ∷ []
push_month key month ((k, history) ∷ dimensions) =
    if text_eq k key
    then (k, history ++ month ∷ []) ∷ dimensions
    else (k, history) ∷ push_month key month dimensions

unfoldable pub dimensions_from : List Dimension → List ForecastUsageMonth → List Dimension
unfolding push_month dimension_key
dimensions_from dimensions [] = dimensions
dimensions_from dimensions (month ∷ months) =
    dimensions_from (push_month (dimension_key month) month dimensions) months

-- `dimensionsByKey`.
unfoldable pub dimensions_by_key : List ForecastUsageMonth → List Dimension
unfolding dimensions_from
dimensions_by_key months = dimensions_from [] months

-- The rounded mean of `averageCents`, from the integers that it has read.
unfoldable pub average_of : List ℤ → ℤ
average_of costs =
    let count = pos (length costs) in quot (sum_from (pos 0) costs +ℤ quot count (pos 2)) count

-- `averageCents`.
unfoldable pub average_cents : List ForecastUsageMonth → Option ℤ
unfolding average_of
average_cents months = do
  costs ← map_throws (λ (m : ForecastUsageMonth). big_int m.on_demand_cost_cents) months
  some (average_of costs)

-- `month.slice(5, 7)`.
abbrev pub month_of_year : Text → Text
month_of_year month = take 2 (drop 5 month)

abbrev pub same_season : Text → ForecastUsageMonth → Bool
same_season month entry = text_eq (month_of_year entry.month) (month_of_year month)

abbrev basis_rows : List ForecastUsageMonth → List ForecastUsageMonth → List ForecastUsageMonth
basis_rows [] history = history
basis_rows (row ∷ seasonal) history = row ∷ seasonal

abbrev basis_of : List ForecastUsageMonth → Basis
basis_of [] = all_history_average
basis_of (row ∷ seasonal) = seasonal_month

-- `forecastPoint`; the key of a history has three parts.
unfoldable pub forecast_point : Text → List ForecastUsageMonth → Text → Option ForecastPoint
unfolding average_cents
forecast_point key history month = do
  let seasonal = filter (same_season month) history
  average ← average_cents (basis_rows seasonal history)
  some (record {
    month = month;
    provider = get_or (split 0 key) 0 [];
    service_code = get_or (split 0 key) 1 [];
    region = get_or (split 0 key) 2 [];
    forecast_on_demand_cost_cents = average;
    basis = basis_of seasonal;
  })

-- `forecast_points`: every dimension at every month of the horizon.
unfoldable pub forecast_points : List Dimension → List Text → Option (List ForecastPoint)
unfolding forecast_point
forecast_points [] months = some []
forecast_points ((key, history) ∷ dimensions) months = do
  points ← map_throws (forecast_point key history) months
  rest ← forecast_points dimensions months
  some (points ++ rest)
