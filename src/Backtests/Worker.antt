-- ===== src/Backtests/Worker.antt =====
-- core/backtests/backtest-worker.ts: `processNextBacktest` over the tables and the object store.
-- `fails` says which call of the database or the object store throws, and `usage` gives what
-- `listReplayUsageMonths` selects for a run.
pub mod Outcome
use cloud_commitment_portfol.Base.{
  Bool, true, false, Option, none, some, List, [], ◌∷◌, ◌++◌, if◌then◌else◌,
}
use cloud_commitment_portfol.Base.Text.{Text, codes, text_eq}
use cloud_commitment_portfol.Base.Json.{Json, obj, Fields, as_object}
use cloud_commitment_portfol.Base.Action.{
  Result, ok, throw, Action, pure, raise, gets, or_raise, catch, modify, raise_if, ◌>>=◌, ◌>>◌,
  then_do,
}
use cloud_commitment_portfol.Backtests.Replay.{UsageMonth}
use cloud_commitment_portfol.Backtests.Repository.{
  BacktestRunStatus, queued, running, completed, failed, BacktestRun, ReportSnapshot,
  next_queued_backtest, update_backtests, start_backtest, finish_backtest, abandon_backtest,
}
use cloud_commitment_portfol.Backtests.Artifact.{
  Metrics, build_metrics, artifact_json, metrics_json, report_snapshot,
}

pub record Tables : Type 0 where
  pub runs : List BacktestRun
  pub reports : List ReportSnapshot
  pub objects : List (Text × Json)

-- The calls that can throw, each one transaction or one request.
pub data Call : Type 0 where
  claim_next list_usage complete fail : Call
  get_object put_object : Text → Call

pub data Failure : Type 0 where
  failure : Failure

-- `BacktestWorkerResult`.
pub data BacktestResult : Type 0 where
  idle : BacktestResult
  processed : Text → BacktestRunStatus → Option Text → Bool → BacktestResult

abbrev pub Step : Type 0 → Type 0
Step A = Action Tables Failure A

abbrev pub stored : Text → List (Text × Json) → Option Json
stored key [] = none
stored key ((k, v) ∷ objects) = if text_eq k key then some v else stored key objects

unfoldable pub backtest_key : BacktestRun → Text
backtest_key run = codes "backtests/" ++ (run.id ++ codes "/output.json")

abbrev pub report_of : BacktestRun → Metrics → ReportSnapshot
report_of run metrics = record {
  tenant_id = run.tenant_id;
  source_id = run.id;
  snapshot_json = report_snapshot run metrics;
  created_by_user_id = run.created_by_user_id;
}

module _ (fails : Call → Bool) (locked : Text → Bool) (usage : BacktestRun → List UsageMonth) where
  abbrev call : Call → Step (Unit {0})
  call c = raise_if (fails c) failure

  unfoldable pub read_json : Text → Step Fields
  read_json key = do
    call (get_object key)
    value ← gets (λ w. stored key w.objects)
    document ← or_raise value failure
    pure (as_object (some document))

  -- The rest of `claimNextQueuedBacktest`, after its SELECT.
  unfoldable pub claim_selected : Option BacktestRun → Step (Option BacktestRun)
  claim_selected none = pure none
  claim_selected (some r) = do
    modify (λ w. record w { runs = update_backtests r.id queued start_backtest w.runs })
    pure (some (start_backtest r))

  unfoldable pub claim_next_queued_backtest : Step (Option BacktestRun)
  claim_next_queued_backtest = do
    call claim_next
    candidate ← gets (λ w. next_queued_backtest locked w.runs)
    claim_selected candidate

  -- `completeBacktest`: the UPDATE and the INSERT of one transaction.
  unfoldable pub complete_backtest : BacktestRun → Text → Metrics → Step (Unit {0})
  complete_backtest run output_uri metrics = do
    call complete
    modify (λ w. record w {
      runs =
          update_backtests run.id running (finish_backtest output_uri (metrics_json metrics))
            w.runs;
      reports = w.reports ++ report_of run metrics ∷ [];
    })

  unfoldable pub fail_backtest : Text → Text → Step (Unit {0})
  fail_backtest id code = do
    call fail
    modify (λ w. record w { runs = update_backtests id running (abandon_backtest code) w.runs })

  unfoldable pub put : Text → Fields → Step (Unit {0})
  put key document = do
    call (put_object key)
    modify (λ w. record w { objects = (key, obj document) ∷ w.objects })

  -- The `try` block, from its end.
  unfoldable pub with_metrics : BacktestRun → Fields → Metrics → Step BacktestResult
  with_metrics run input_snapshot metrics = do
    put (backtest_key run) (artifact_json run input_snapshot metrics)
    complete_backtest run (backtest_key run) metrics
    pure (processed run.id completed (some (backtest_key run)) true)

  unfoldable pub with_snapshot : BacktestRun → Fields → Step BacktestResult
  with_snapshot run input_snapshot = do
    call list_usage
    metrics ← or_raise (build_metrics run.baseline input_snapshot (usage run)) failure
    with_metrics run input_snapshot metrics

  unfoldable pub attempt : BacktestRun → Step BacktestResult
  attempt run = do
    input_snapshot ← read_json run.input_snapshot_uri
    with_snapshot run input_snapshot

  -- The `catch` block.
  unfoldable pub give_up : BacktestRun → Step BacktestResult
  give_up run = do
    fail_backtest run.id (codes "BACKTEST_WORKER_FAILED")
    pure (processed run.id failed none false)

  unfoldable pub process_claimed : Option BacktestRun → Step BacktestResult
  process_claimed none = pure idle
  process_claimed (some run) = catch (attempt run) (λ _. give_up run)

  -- `processNextBacktest`.
  unfoldable pub process_next : Step BacktestResult
  process_next = claim_next_queued_backtest >>= process_claimed
