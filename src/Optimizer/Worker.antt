-- ===== src/Optimizer/Worker.antt =====
-- core/optimizer-runs/optimizer-worker.ts, `processNext`: one run is claimed, read, optimized and
-- settled. The object store and the database may fail at any call: `fails` says at which.
pub mod Settlement
pub mod Recorded
pub mod Outcome
mod Tests
use cloud_commitment_portfol.Base.{
  ℕ, Bool, true, false, Option, none, some, List, [], ◌∷◌, ◌++◌, map, head?, filter, if◌then◌else◌,
}
use cloud_commitment_portfol.Base.Text.{Text, codes, text_eq}
use cloud_commitment_portfol.Base.Json.{Json, obj, Fields, end, as_object}
use cloud_commitment_portfol.Base.Action.{
  Result, ok, throw, Action, pure, raise, gets, or_raise, catch, modify, raise_if, ◌>>=◌, ◌>>◌,
}
use cloud_commitment_portfol.Optimizer.Types.{
  RunStatus, queued, running, completed, failed, infeasible, WorkerRun, PriceItem, Candidate,
}
use cloud_commitment_portfol.Optimizer.Policy.{forecast_output_uri}
use cloud_commitment_portfol.Optimizer.Evaluate.{is_feasible, optimize_commitment_run}
use cloud_commitment_portfol.Optimizer.Documents.{
  build_frontier, build_output, infeasibility_details, recommendation_input, frontier_key,
  output_key,
}
use cloud_commitment_portfol.Optimizer.Repository.{
  RecommendationInput, RecommendationRow, PriceRow, next_queued, update_runs, set_running,
  set_completed, set_infeasible, set_failed, list_frozen_price_items,
}

-- The database and the object store. An object is the JSON value that its bytes hold.
pub record World : Type 0 where
  pub runs : List WorkerRun
  pub price_rows : List PriceRow
  pub recommendations : List RecommendationRow
  pub objects : List (Text × Json)

-- The calls of `processNext` that leave the process.
pub data Call : Type 0 where
  claim_next list_prices insert complete mark_infeasible fail : Call
  get_object put_object : Text → Call

pub data Failure : Type 0 where
  failure : Failure

-- `OptimizerWorkerResult`.
pub data WorkerResult : Type 0 where
  idle : WorkerResult
  processed : Text → RunStatus → Option Text → Option Text → ℕ → WorkerResult

abbrev pub Step : Type 0 → Type 0
Step A = Action World Failure A

abbrev pub lookup : Text → List (Text × Json) → Option Json
lookup key [] = none
lookup key ((k, v) ∷ objects) = if text_eq k key then some v else lookup key objects

module _ (fails : Call → Bool) (locked : Text → Bool) where
  abbrev call : Call → Step (Unit {0})
  call c = raise_if (fails c) failure

  unfoldable pub read_json : Text → Step Fields
  read_json key = do
    call (get_object key)
    value ← gets (λ w. lookup key w.objects)
    document ← or_raise value failure
    pure (as_object (some document))

  unfoldable pub put : Text → Fields → Step (Unit {0})
  put key document = do
    call (put_object key)
    modify (λ w. record w { objects = (key, obj document) ∷ w.objects })

  -- The rest of `claimNextQueuedOptimizerRun`, after its SELECT.
  claim_candidate : Option WorkerRun → Step (Option WorkerRun)
  claim_candidate none = pure none
  claim_candidate (some r) = do
    modify (λ w. record w { runs = update_runs r.id queued set_running w.runs })
    pure (some (set_running r))

  pub claim_next_queued_optimizer_run : Step (Option WorkerRun)
  claim_next_queued_optimizer_run = do
    call claim_next
    candidate ← gets (λ w. next_queued locked w.runs)
    claim_candidate candidate

  unfoldable pub frozen_price_items : WorkerRun → Step (List PriceItem)
  frozen_price_items run = do call list_prices; gets (λ w. list_frozen_price_items run w.price_rows)

  unfoldable pub insert_recommendation : WorkerRun → RecommendationInput → Step (Unit {0})
  insert_recommendation run input = do
    call insert
    modify (λ w. record w {
      recommendations =
          w.recommendations
          ++ record { tenant_id = run.tenant_id; optimizer_run_id = run.id; input = input } ∷ [];
    })

  unfoldable pub complete_optimizer_run : Text → Text → Text → Step (Unit {0})
  complete_optimizer_run id output frontier = do
    call complete
    modify (λ w. record w { runs = update_runs id running (set_completed output frontier) w.runs })

  unfoldable pub mark_optimizer_run_infeasible : Text → Text → Fields → Step (Unit {0})
  mark_optimizer_run_infeasible id frontier details = do
    call mark_infeasible
    modify
        (λ w. record w { runs = update_runs id running (set_infeasible frontier details) w.runs })

  unfoldable pub fail_optimizer_run : Text → Text → Step (Unit {0})
  fail_optimizer_run id code = do
    call fail
    modify (λ w. record w { runs = update_runs id running (set_failed code) w.runs })

  -- The branch of `processNext` for `!selected`.
  settle_infeasible : WorkerRun → List Candidate → Step WorkerResult
  settle_infeasible run candidates = do
    mark_optimizer_run_infeasible run.id (frontier_key run) (infeasibility_details candidates)
    pure (processed run.id infeasible none (some (frontier_key run)) 0)

  -- The rest of the `try` block, with a candidate selected.
  settle_selected : WorkerRun → Fields → Candidate → Step WorkerResult
  settle_selected run snapshot selected = do
    put (output_key run) (build_output run selected)
    input ← or_raise (recommendation_input run snapshot selected) failure
    insert_recommendation run input
    complete_optimizer_run run.id (output_key run) (frontier_key run)
    pure (processed run.id completed (some (output_key run)) (some (frontier_key run)) 1)

  settle : WorkerRun → Fields → List Candidate → Option Candidate → Step WorkerResult
  settle run snapshot candidates none = settle_infeasible run candidates
  settle run snapshot candidates (some selected) = settle_selected run snapshot selected

  -- The `try` block, from its end: what it does with each thing that it has read.
  with_candidates : WorkerRun → Fields → List Candidate → Step WorkerResult
  with_candidates run snapshot candidates = do
    let selected = head? (filter is_feasible candidates)
    put (frontier_key run) (build_frontier run candidates selected)
    settle run snapshot candidates selected

  with_prices : WorkerRun → Fields → Fields → List PriceItem → Step WorkerResult
  with_prices run snapshot forecast price_items = do
    candidates ← or_raise (optimize_commitment_run run snapshot forecast price_items) failure
    with_candidates run snapshot candidates

  pub with_snapshot : WorkerRun → Fields → Step WorkerResult
  with_snapshot run snapshot = do
    forecast ← read_json (forecast_output_uri snapshot)
    price_items ← frozen_price_items run
    with_prices run snapshot forecast price_items

  attempt : WorkerRun → Step WorkerResult
  attempt run = do snapshot ← read_json run.input_snapshot_uri; with_snapshot run snapshot

  -- The `catch` block.
  give_up : WorkerRun → Step WorkerResult
  give_up run = do
    fail_optimizer_run run.id (codes "OPTIMIZER_WORKER_FAILED")
    pure (processed run.id failed none none 0)

  process_claimed : Option WorkerRun → Step WorkerResult
  process_claimed none = pure idle
  process_claimed (some run) = catch (attempt run) (λ _. give_up run)

  -- `processNextOptimizerRun`.
  pub process_next : Step WorkerResult
  process_next = claim_next_queued_optimizer_run >>= process_claimed
