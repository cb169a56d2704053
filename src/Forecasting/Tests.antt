-- ===== src/Forecasting/Tests.antt =====
-- Three months of two dimensions, and the forecast of two months.
use cloud_commitment_portfol.Base.{◌≡◌, refl, some, List, [], ◌∷◌, count, All, ltb, ◌≤◌}
use cloud_commitment_portfol.Base.Int.{ℤ, pos, ◌+ℤ◌, quot, sum_from}
use cloud_commitment_portfol.Base.Text.{Text, codes, text_eq, split, big_int}
use cloud_commitment_portfol.Forecasting.{
  ForecastUsageMonth, ForecastPoint, Basis, seasonal_month, all_history_average, dimension_key,
  push_month, dimensions_from, dimensions_by_key, average_of, average_cents, forecast_point,
  forecast_points, quality_warnings, low_monthly_observations,
}
use cloud_commitment_portfol.Forecasting.Dimensions.{
  IsHistory, has_key, rows_of, dimensions_by_key-groups,
}

forecast : Unit {0}
unfolding dimensions_by_key dimensions_from push_month dimension_key forecast_points forecast_point
    average_cents average_of sum_from ◌+ℤ◌ quot text_eq split big_int quality_warnings
forecast = tt

abbrev row : Text → Text → Text → ForecastUsageMonth
row month region cost = record {
  month = month;
  provider = codes "aws";
  service_code = codes "ec2";
  region = region;
  on_demand_cost_cents = cost;
  line_item_count = 1;
}

abbrev history : List ForecastUsageMonth
history =
    row (codes "2025-01") (codes "eu") (codes "10")
    ∷ row (codes "2025-01") (codes "us") (codes "7")
    ∷ row (codes "2025-02") (codes "eu") (codes "21")
    ∷ []

abbrev months : List Text
months = codes "2026-01" ∷ codes "2026-03" ∷ []

abbrev point : Text → Text → ℤ → Basis → ForecastPoint
point month region cost basis = record {
  month = month;
  provider = codes "aws";
  service_code = codes "ec2";
  region = region;
  forecast_on_demand_cost_cents = cost;
  basis = basis;
}

abbrev expected : List ForecastPoint
expected =
    point (codes "2026-01") (codes "eu") (pos 10) seasonal_month
    ∷ point (codes "2026-03") (codes "eu") (pos 16) all_history_average
    ∷ point (codes "2026-01") (codes "us") (pos 7) seasonal_month
    ∷ point (codes "2026-03") (codes "us") (pos 7) all_history_average
    ∷ []

forecast_is : forecast_points (dimensions_by_key history) months ≡ some expected
unfolding forecast
forecast_is = refl

short_history : quality_warnings 90 2 3 60 ≡ low_monthly_observations ∷ []
unfolding forecast
short_history = refl

groups_example :
    (count
        (λ (m : ForecastUsageMonth). ltb 0 m.line_item_count)
        (rows_of (dimensions_by_key history))
      ≡ count (λ (m : ForecastUsageMonth). ltb 0 m.line_item_count) history)
    × All IsHistory (dimensions_by_key history)
    × ((key : Text) → count (has_key key) (dimensions_by_key history) ≤ 1)
groups_example =
    dimensions_by_key-groups (λ (m : ForecastUsageMonth). ltb 0 m.line_item_count) history
