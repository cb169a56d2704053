-- ===== src/Optimizer/Repository.antt =====
-- core/optimizer-runs/optimizer-runs-repository.ts: the tables that the repository reads and
-- writes, and its statements. A row of `optimizer_runs` is a `WorkerRun`. The triggers of
-- db/migrations/0018_create_optimizer_runs.sql are in Repository/Lifecycle.
pub mod Checks
pub mod Lifecycle
use cloud_commitment_portfol.Base.{
  ℕ, ◌≡◌, Bool, true, false, ◌&&◌, Option, none, some, List, [], ◌∷◌, map, head?, find?, take,
  filter, any, ltb, ◌==◌, if◌then◌else◌,
}
use cloud_commitment_portfol.Base.Int.{ℤ, pos, negsuc}
use cloud_commitment_portfol.Base.Sort.{sort}
use cloud_commitment_portfol.Base.Text.{Text, codes, text_eq, compare_text}
use cloud_commitment_portfol.Base.Json.{Json, str, Fields, end, field}
use cloud_commitment_portfol.Optimizer.Types.{
  Provider, provider_eq, Instrument, instrument_eq, RunStatus, queued, running, completed, failed,
  infeasible, cancelled, PaymentOption, no_upfront, partial_upfront, all_upfront, monthly,
  WorkerRun, PriceItem, RiskBand,
}

pub data RecommendationType : Type 0 where
  buy manual_review no_action : RecommendationType

-- The statuses with which a worker may insert a recommendation.
pub data InitialStatus : Type 0 where
  draft ready pending_approval : InitialStatus

-- `OptimizerRecommendationInput`.
pub record RecommendationInput : Type 0 where
  pub recommendation_type : RecommendationType
  pub provider : Provider
  pub instrument : Instrument
  pub service_code : Text
  pub region : Text
  pub term_months : ℕ
  pub commitment_amount_cents : ℤ
  pub expected_savings_cents : ℤ
  pub p95_downside_loss_cents : ℤ
  pub utilization_p50_pct : Text
  pub utilization_p95_pct : Text
  pub confidence_score : Text
  pub risk_band : RiskBand
  pub status : InitialStatus
  pub approval_required : Bool
  pub explanation : Fields

-- A row that `insertRecommendation` inserts.
pub record RecommendationRow : Type 0 where
  pub tenant_id : Text
  pub optimizer_run_id : Text
  pub input : RecommendationInput

-- A row of `price_table_items`.
pub record PriceRow : Type 0 where
  pub tenant_id : Text
  pub price_table_version_id : Text
  pub provider : Provider
  pub instrument : Instrument
  pub item : PriceItem

unfoldable pub status_eq : RunStatus → RunStatus → Bool
status_eq queued queued = true
status_eq running running = true
status_eq completed completed = true
status_eq failed failed = true
status_eq infeasible infeasible = true
status_eq cancelled cancelled = true
status_eq _ _ = false

-- `ORDER BY created_at ASC, id ASC`.
unfoldable pub compare_age : WorkerRun → WorkerRun → ℤ
unfolding compare_text
compare_age a b =
    if ltb a.created_at b.created_at
    then negsuc 0
    else if ltb b.created_at a.created_at
    then pos 1
    else compare_text a.id b.id

-- The SELECT of `claimNextQueuedOptimizerRun`; `locked` are the rows that other transactions hold.
unfoldable pub next_queued : (Text → Bool) → List WorkerRun → Option WorkerRun
unfolding status_eq compare_age
next_queued locked runs = head? (
    sort compare_age
      (filter (λ r. status_eq r.status queued && (if locked r.id then false else true)) runs))

-- `UPDATE optimizer_runs SET … WHERE id = $1 AND status = …`.
unfoldable pub update_row : Text → RunStatus → (WorkerRun → WorkerRun) → WorkerRun → WorkerRun
unfolding text_eq status_eq
update_row id status change r = if text_eq r.id id && status_eq r.status status then change r else r

unfoldable pub update_runs :
    Text → RunStatus → (WorkerRun → WorkerRun) → List WorkerRun → List WorkerRun
unfolding update_row
update_runs id status change = map (update_row id status change)

-- The SET clauses; the trigger sets `updated_at`, which no statement of the program reads back.
abbrev pub set_running : WorkerRun → WorkerRun
set_running r = record r { status = running }

abbrev pub set_completed : Text → Text → WorkerRun → WorkerRun
set_completed output frontier r = record r {
  status = completed;
  output_uri = some output;
  frontier_uri = some frontier;
  infeasibility_details = end;
  error_details = end;
}

abbrev pub set_infeasible : Text → Fields → WorkerRun → WorkerRun
set_infeasible frontier details r = record r {
  status = infeasible;
  output_uri = none;
  frontier_uri = some frontier;
  infeasibility_details = details;
  error_details = end;
}

abbrev pub set_failed : Text → WorkerRun → WorkerRun
set_failed code r = record r {
  status = failed;
  output_uri = none;
  frontier_uri = none;
  infeasibility_details = end;
  error_details = field (codes "code") (str code) end;
}

abbrev payment_rank : PaymentOption → Text
payment_rank no_upfront = codes "no_upfront"
payment_rank partial_upfront = codes "partial_upfront"
payment_rank all_upfront = codes "all_upfront"
payment_rank monthly = codes "monthly"

abbrev then_by : ℤ → ℤ → ℤ
then_by (pos n) b = if n == 0 then b else pos n
then_by (negsuc n) b = negsuc n

abbrev compare_ℕ : ℕ → ℕ → ℤ
compare_ℕ a b = if ltb a b then negsuc 0 else if ltb b a then pos 1 else pos 0

-- `ORDER BY region ASC, sku ASC, term_months ASC, payment_option ASC`, by code units.
unfoldable pub compare_price_rows : PriceRow → PriceRow → ℤ
unfolding compare_text
compare_price_rows a b = then_by (compare_text a.item.region b.item.region) (
    then_by (compare_text a.item.sku b.item.sku) (
      then_by (compare_ℕ a.item.term_months b.item.term_months)
        (compare_text (payment_rank a.item.payment_option) (payment_rank b.item.payment_option))))

-- The WHERE clause of `listFrozenPriceItems`.
unfoldable pub is_frozen_for : WorkerRun → PriceRow → Bool
unfolding text_eq provider_eq instrument_eq
is_frozen_for run row =
    text_eq row.tenant_id run.tenant_id
    && any (text_eq row.price_table_version_id) run.price_table_version_ids
    && provider_eq row.provider run.provider
    && instrument_eq row.instrument run.instrument

-- `listFrozenPriceItems`.
unfoldable pub list_frozen_price_items : WorkerRun → List PriceRow → List PriceItem
unfolding is_frozen_for compare_price_rows
list_frozen_price_items run rows =
    map (λ (row : PriceRow). row.item) (sort compare_price_rows (filter (is_frozen_for run) rows))

abbrev wanted : Option RunStatus → RunStatus → Bool
wanted none s = true
wanted (some want) s = status_eq s want

-- `list`: the newest runs of the tenant first, with the status asked for.
unfoldable pub list_runs : Text → Option RunStatus → ℕ → List WorkerRun → List WorkerRun
unfolding text_eq status_eq compare_age
list_runs tenant_id status limit runs = take limit (
    sort (λ a b. compare_age b a)
      (filter (λ r. text_eq r.tenant_id tenant_id && wanted status r.status) runs))

-- `get`.
unfoldable pub get_run : Text → Text → List WorkerRun → Option WorkerRun
unfolding text_eq
get_run tenant_id id runs = find? (λ r. text_eq r.tenant_id tenant_id && text_eq r.id id) runs
