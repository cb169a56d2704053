-- ===== src/Optimizer/Worker/Tests.antt =====
-- The worker on a concrete database, without and with a failing call, and its theorems there.
use cloud_commitment_portfol.Base.{
  ℕ, ◌≡◌, refl, Bool, true, false, none, some, List, [], ◌∷◌, map, length, arith, ◌+◌,
}
use cloud_commitment_portfol.Base.Sort.{sort}
use cloud_commitment_portfol.Base.Text.{Text, codes, text_eq}
use cloud_commitment_portfol.Base.Json.{Fields, obj, str, end, field}
use cloud_commitment_portfol.Base.Action.{ok}
use cloud_commitment_portfol.Optimizer.Types.{
  aws, aws_compute_savings_plan, RunStatus, queued, running, completed, failed, WorkerRun,
  PriceItem,
}
use cloud_commitment_portfol.Optimizer.Documents.{recommendation_input, frontier_key, output_key}
use cloud_commitment_portfol.Optimizer.Evaluate.Samples.{
  sample_run, sample_snapshot, sample_forecast, sample_items,
}
use cloud_commitment_portfol.Optimizer.Evaluate.Tests.{kernel}
use cloud_commitment_portfol.Optimizer.Policy.{forecast_output_uri}
use cloud_commitment_portfol.Optimizer.Repository.{
  PriceRow, update_row, update_runs, next_queued, list_frozen_price_items, set_running,
}
use cloud_commitment_portfol.Optimizer.Repository.Lifecycle.{Accepted, updates-Accepted}
use cloud_commitment_portfol.Optimizer.Repository.Checks.{
  is_uri, has_any, InfeasibilityCheck, Checked,
}
use cloud_commitment_portfol.Optimizer.Repository.{set_completed, set_infeasible, set_failed}
use cloud_commitment_portfol.Optimizer.Worker.{
  World, Call, complete, processed, process_next, claim_next_queued_optimizer_run, claim_candidate,
  process_claimed, attempt, with_snapshot, with_prices, with_candidates, settle, settle_selected,
  settle_infeasible, give_up, read_json, put, frozen_price_items, insert_recommendation,
  complete_optimizer_run, mark_optimizer_run_infeasible, fail_optimizer_run,
}

worker : Unit {0}
unfolding kernel process_next claim_next_queued_optimizer_run claim_candidate process_claimed
    attempt with_snapshot with_prices with_candidates settle settle_selected settle_infeasible
    give_up read_json put frozen_price_items insert_recommendation complete_optimizer_run
    mark_optimizer_run_infeasible fail_optimizer_run next_queued update_runs list_frozen_price_items
    sort forecast_output_uri recommendation_input text_eq frontier_key output_key
worker = tt

abbrev price_row : PriceItem → PriceRow
price_row item = record {
  tenant_id = codes "t1";
  price_table_version_id = codes "v1";
  provider = aws;
  instrument = aws_compute_savings_plan;
  item = item;
}

abbrev world : World
world = record {
  runs =
      record sample_run { id = codes "r2"; created_at = 9 }
      ∷ sample_run
      ∷ record sample_run { id = codes "r3"; status = running }
      ∷ [];
  price_rows = map price_row sample_items;
  recommendations = [];
  objects = (codes "in", obj sample_snapshot) ∷ (codes "fc", obj sample_forecast) ∷ [];
}

abbrev no_faults : Call → Bool
no_faults _ = false

-- The database goes away just when the run is to be marked completed.
abbrev complete_faults : Call → Bool
complete_faults complete = true
complete_faults _ = false

abbrev unlocked : Text → Bool
unlocked _ = false

abbrev run_statuses : World → List RunStatus
run_statuses w = map (λ (r : WorkerRun). r.status) w.runs

-- The oldest queued run is the second row; it alone is settled.
completes :
    ((process_next no_faults unlocked world).0
      ≡ ok (
          processed
            (codes "r1")
            completed
            (some (codes "optimizer-runs/r1/output.json"))
            (some (codes "optimizer-runs/r1/frontier.json"))
            1))
    × (run_statuses (process_next no_faults unlocked world).1 ≡ queued ∷ completed ∷ running ∷ [])
    × (length (process_next no_faults unlocked world).1.recommendations ≡ 1)
unfolding worker
completes = (refl, refl, refl)

-- The run is reported and recorded as failed, and its recommendation is there.
stays_behind :
    ((process_next complete_faults unlocked world).0
      ≡ ok (processed (codes "r1") failed none none 0))
    × (run_statuses (process_next complete_faults unlocked world).1
        ≡ queued ∷ failed ∷ running ∷ [])
    × (length (process_next complete_faults unlocked world).1.recommendations ≡ 1)
unfolding worker
stays_behind = (refl, refl, refl)

-- A measure of the texts of details, by the number of their fields.
abbrev fields_octets : Fields → ℕ
fields_octets end = 2
fields_octets (field key value rest) = 16 + fields_octets rest

uri_o : is_uri (codes "o") ≡ true
unfolding is_uri
uri_o = refl

uri_f : is_uri (codes "f") ≡ true
unfolding is_uri
uri_f = refl

details_InfeasibilityCheck :
    InfeasibilityCheck fields_octets
      (field (codes "reason") (str (codes "NO_FEASIBLE_CANDIDATES")) end)
unfolding has_any text_eq
details_InfeasibilityCheck = (omega arith, refl)

sample_run-Checked : Checked fields_octets sample_run
unfolding has_any
sample_run-Checked = record {
  state_fields = (refl, refl, refl, refl);
  output = tt;
  frontier = tt;
  infeasibility = (omega arith, refl);
  error = (omega arith, refl);
}

Accepted_example :
    let details = field (codes "reason") (str (codes "NO_FEASIBLE_CANDIDATES")) end in
    Accepted fields_octets sample_run (update_row (codes "r1") queued set_running sample_run)
    × Accepted fields_octets sample_run
        (update_row (codes "r1") running (set_completed (codes "o") (codes "f")) sample_run)
    × Accepted fields_octets sample_run
        (update_row (codes "r1") running (set_infeasible (codes "f") details) sample_run)
    × Accepted fields_octets sample_run
        (update_row (codes "r1") running (set_failed (codes "X")) sample_run)
Accepted_example =
    updates-Accepted fields_octets (codes "r1") (codes "o") (codes "f") (codes "X")
      (field (codes "reason") (str (codes "NO_FEASIBLE_CANDIDATES")) end) sample_run uri_o uri_f
      (λ e. cc) details_InfeasibilityCheck (omega arith) (omega arith) sample_run-Checked
