-- ===== src/Optimizer/Types.antt =====
-- The data of core/optimizer-runs/optimizer-worker.ts and core/optimizer-runs/optimizer-runs-types.ts.
-- A field that holds the `toString()` of a `bigint` is that integer, a timestamp the number of its
-- microseconds; ids and the texts that come from outside are texts.
use cloud_commitment_portfol.Base.{ℕ, Bool, true, false, List, Option}
use cloud_commitment_portfol.Base.Int.{ℤ}
use cloud_commitment_portfol.Base.Text.{Text}
use cloud_commitment_portfol.Base.Json.{Fields}

pub data Provider : Type 0 where
  aws azure gcp : Provider

pub data Instrument : Type 0 where
  aws_compute_savings_plan aws_reserved_instance azure_savings_plan azure_reservation
        gcp_committed_use_discount :
      Instrument

pub data RunStatus : Type 0 where
  queued running completed failed infeasible cancelled : RunStatus

pub data PaymentOption : Type 0 where
  no_upfront partial_upfront all_upfront monthly : PaymentOption

pub data RiskBand : Type 0 where
  low medium high blocked : RiskBand

-- The texts that `bindingConstraints` pushes.
pub data Constraint : Type 0 where
  risk_budget minimum_expected_savings utilization_gap : Constraint

unfoldable pub provider_eq : Provider → Provider → Bool
provider_eq aws aws = true
provider_eq azure azure = true
provider_eq gcp gcp = true
provider_eq _ _ = false

unfoldable pub instrument_eq : Instrument → Instrument → Bool
instrument_eq aws_compute_savings_plan aws_compute_savings_plan = true
instrument_eq aws_reserved_instance aws_reserved_instance = true
instrument_eq azure_savings_plan azure_savings_plan = true
instrument_eq azure_reservation azure_reservation = true
instrument_eq gcp_committed_use_discount gcp_committed_use_discount = true
instrument_eq _ _ = false

-- `OptimizerWorkerRun`.
pub record WorkerRun : Type 0 where
  pub id : Text
  pub tenant_id : Text
  pub forecast_run_id : Text
  pub scenario_id : Option Text
  pub optimizer_policy_id : Text
  pub provider : Provider
  pub instrument : Instrument
  pub price_table_version_ids : List Text
  pub status : RunStatus
  pub random_seed : Text
  pub input_snapshot_uri : Text
  pub output_uri : Option Text
  pub frontier_uri : Option Text
  pub infeasibility_details : Fields
  pub error_details : Fields
  pub created_by_user_id : Option Text
  pub created_at : ℕ
  pub updated_at : ℕ

-- `OptimizerPriceItem`; the two amounts are texts that the database wrote.
pub record PriceItem : Type 0 where
  pub sku : Text
  pub region : Text
  pub term_months : ℕ
  pub payment_option : PaymentOption
  pub hourly_rate_cents : Text
  pub upfront_cents : Text
  pub coverage_rules : Fields

pub record ForecastPoint : Type 0 where
  pub month : Text
  pub provider : Provider
  pub service_code : Text
  pub region : Text
  pub forecast_on_demand_cost_cents : Text

-- `CommitmentInstrumentCandidate`.
pub record Candidate : Type 0 where
  pub provider : Provider
  pub instrument : Instrument
  pub service_code : Text
  pub region : Text
  pub term_months : ℕ
  pub payment_option : PaymentOption
  pub commitment_amount_cents : ℤ
  pub expected_savings_cents : ℤ
  pub p95_downside_loss_cents : ℤ
  pub utilization_p50_pct : Text
  pub utilization_p95_pct : Text
  pub confidence_score : Text
  pub risk_band : RiskBand
  pub feasible : Bool
  pub binding_constraints : List Constraint

-- `PolicySnapshot`.
pub record PolicySnapshot : Type 0 where
  pub max_downside_loss_cents : ℤ
  pub min_expected_savings_cents : ℤ
  pub max_utilization_gap_bps : ℤ
  pub approval_threshold_cents : ℤ
  pub liquidity_penalty_bps : ℤ
