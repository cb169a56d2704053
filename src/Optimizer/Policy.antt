-- ===== src/Optimizer/Policy.antt =====
-- Reading the snapshot, the forecast and the price items of a run.
use mathlib.Core.Option
use cloud_commitment_portfol.Base.{
  List, [], map, Bool, true, ◌&&◌, Option, none, some, filter, if◌then◌else◌, ◌>>=◌,
}
use cloud_commitment_portfol.Base.Int.{pos}
use cloud_commitment_portfol.Base.Text.{Text, codes, text_eq, trim, big_int}
use cloud_commitment_portfol.Base.Json.{
  Json, null, bool, int, frac, str, arr, obj, Fields, member, items, as_object, object_at,
  string_at, integer_at,
}
use cloud_commitment_portfol.Optimizer.Numeric.{decimal_percent_to_bps}
use cloud_commitment_portfol.Optimizer.Types.{
  Provider, aws, azure, gcp, PriceItem, ForecastPoint, PolicySnapshot,
}

-- `policySnapshot`; `none` is the SyntaxError of a text that is no integer.
unfoldable pub policy_snapshot : Fields → Option PolicySnapshot
unfolding object_at string_at integer_at
policy_snapshot snapshot = do
  let policy = object_at snapshot (codes "policy")
  let config = object_at policy (codes "config")
  max_downside ← big_int (string_at policy (codes "maxDownsideLossCents"))
  min_savings ← big_int (string_at policy (codes "minExpectedSavingsCents"))
  max_gap ← decimal_percent_to_bps (string_at policy (codes "maxUtilizationGapPct"))
  threshold ← big_int (string_at policy (codes "approvalThresholdCents"))
  some (record {
    max_downside_loss_cents = max_downside;
    min_expected_savings_cents = min_savings;
    max_utilization_gap_bps = max_gap;
    approval_threshold_cents = threshold;
    liquidity_penalty_bps = integer_at config (codes "liquidity_penalty_bps") (pos 0);
  })

unfoldable pub forecast_output_uri : Fields → Text
unfolding object_at string_at
forecast_output_uri snapshot =
    string_at (object_at snapshot (codes "forecast_run")) (codes "outputUri")

-- The value as a text, where it is one.
abbrev pub as_text? : Option Json → Option Text
as_text? none = none
as_text? (some (str t)) = some t
as_text? (some null) = none
as_text? (some (bool b)) = none
as_text? (some (int n)) = none
as_text? (some (frac t)) = none
as_text? (some (arr vs)) = none
as_text? (some (obj fields)) = none

provider_of : Option Text → Provider
provider_of none = aws
provider_of (some t) =
    if text_eq t (codes "aws")
    then aws
    else if text_eq t (codes "azure")
    then azure
    else if text_eq t (codes "gcp")
    then gcp
    else aws

unfoldable pub provider_value : Fields → Text → Provider
unfolding provider_of member
provider_value source key = provider_of (as_text? (member key source))

forecast_point : Json → ForecastPoint
forecast_point point =
    let row = as_object (some point) in
    record {
      month = string_at row (codes "month");
      provider = provider_value row (codes "provider");
      service_code = string_at row (codes "service_code");
      region = string_at row (codes "region");
      forecast_on_demand_cost_cents = string_at row (codes "forecast_on_demand_cost_cents");
    }

abbrev pub as_array : Option Json → List Json
as_array none = []
as_array (some (arr vs)) = items vs
as_array (some null) = []
as_array (some (bool b)) = []
as_array (some (int n)) = []
as_array (some (frac t)) = []
as_array (some (str t)) = []
as_array (some (obj fields)) = []

unfoldable pub forecast_points : Fields → List ForecastPoint
unfolding forecast_point member provider_value string_at
forecast_points forecast = map forecast_point (as_array (member (codes "forecast_points") forecast))

-- `a ?? b` on members: a missing member and `null` give way.
abbrev pub or_else : Option Json → Option Json → Option Json
or_else none b = b
or_else (some null) b = b
or_else (some (bool x)) b = some (bool x)
or_else (some (int n)) b = some (int n)
or_else (some (frac t)) b = some (frac t)
or_else (some (str t)) b = some (str t)
or_else (some (arr vs)) b = some (arr vs)
or_else (some (obj fields)) b = some (obj fields)

abbrev pub non_blank : Option Text → Option Text
non_blank none = none
non_blank (some t) = if text_eq (trim t) [] then none else some t

unfoldable pub coverage_service_code : PriceItem → Option Text
unfolding member text_eq trim
coverage_service_code item = non_blank (
    as_text? (
      or_else (member (codes "service_code") item.coverage_rules)
        (member (codes "service") item.coverage_rules)))

abbrev pub covers : Option Text → Text → Bool
covers none code = true
covers (some t) code = text_eq code t

unfoldable pub points_for_item : List ForecastPoint → PriceItem → List ForecastPoint
unfolding coverage_service_code text_eq
points_for_item points item =
    filter
      (λ point.
        text_eq point.region item.region && covers (coverage_service_code item) point.service_code)
      points

unfoldable pub service_code : ForecastPoint → PriceItem → Text
unfolding coverage_service_code
service_code point item = Option.get_or (coverage_service_code item) point.service_code
