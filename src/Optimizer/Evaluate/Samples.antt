-- ===== src/Optimizer/Evaluate/Samples.antt =====
-- A run with a forecast of three months and two price items, one of which loses money.
use cloud_commitment_portfol.Base.{List, [], ◌∷◌, none}
use cloud_commitment_portfol.Base.Int.{pos}
use cloud_commitment_portfol.Base.Text.{Text, codes}
use cloud_commitment_portfol.Base.Json.{Json, int, str, arr, obj, Fields, end, field, of_items}
use cloud_commitment_portfol.Optimizer.Types.{
  aws, aws_compute_savings_plan, queued, no_upfront, WorkerRun, PriceItem,
}

abbrev pub sample_run : WorkerRun
sample_run = record {
  id = codes "r1";
  tenant_id = codes "t1";
  forecast_run_id = codes "f1";
  scenario_id = none;
  optimizer_policy_id = codes "p1";
  provider = aws;
  instrument = aws_compute_savings_plan;
  price_table_version_ids = codes "v1" ∷ [];
  status = queued;
  random_seed = codes "1";
  input_snapshot_uri = codes "in";
  output_uri = none;
  frontier_uri = none;
  infeasibility_details = end;
  error_details = end;
  created_by_user_id = none;
  created_at = 5;
  updated_at = 5;
}

abbrev pub sample_snapshot : Fields
sample_snapshot =
    field (codes "policy")
      (obj (
        field (codes "maxDownsideLossCents") (str (codes "5000")) (
          field (codes "minExpectedSavingsCents") (str (codes "100")) (
            field (codes "maxUtilizationGapPct") (str (codes "20.00")) (
              field (codes "approvalThresholdCents") (str (codes "1000")) (
                field (codes "config")
                  (obj (field (codes "liquidity_penalty_bps") (int (pos 50)) end)) end))))))
      (field (codes "forecast_run") (obj (field (codes "outputUri") (str (codes "fc")) end)) end)

abbrev sample_point : Text → Text → Json
sample_point month cost = obj (
    field (codes "month") (str month) (
      field (codes "provider") (str (codes "aws")) (
        field (codes "service_code") (str (codes "ec2")) (
          field (codes "region") (str (codes "eu"))
            (field (codes "forecast_on_demand_cost_cents") (str cost) end)))))

abbrev pub sample_forecast : Fields
sample_forecast =
    field (codes "forecast_points")
      (arr (
        of_items (
          sample_point (codes "2026-01") (codes "10000")
          ∷ sample_point (codes "2026-02") (codes "9000")
          ∷ sample_point (codes "2026-03") (codes "11000")
          ∷ [])))
      end

abbrev pub sample_item : Text → Text → PriceItem
sample_item sku hourly = record {
  sku = sku;
  region = codes "eu";
  term_months = 12;
  payment_option = no_upfront;
  hourly_rate_cents = hourly;
  upfront_cents = codes "0";
  coverage_rules = end;
}

abbrev pub sample_items : List PriceItem
sample_items =
    sample_item (codes "dear") (codes "20") ∷ sample_item (codes "fair") (codes "10") ∷ []
