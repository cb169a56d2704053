-- ===== src/Backtests/Repository.antt =====
-- core/backtests/backtests-repository.ts: the rows of `backtest_runs` and `report_snapshots`, and
-- the statements that the worker runs on them.
use cloud_commitment_portfol.Base.{
  ℕ, Bool, true, false, ◌&&◌, Option, none, some, List, map, head?, filter, ltb, if◌then◌else◌,
}
use cloud_commitment_portfol.Base.Int.{ℤ, pos, negsuc}
use cloud_commitment_portfol.Base.Sort.{sort}
use cloud_commitment_portfol.Base.Text.{Text, codes, text_eq, compare_text}
use cloud_commitment_portfol.Base.Json.{str, Fields, end, field}
use cloud_commitment_portfol.Backtests.Replay.{Baseline}

-- `BacktestRunStatus`.
pub data BacktestRunStatus : Type 0 where
  queued running completed failed cancelled : BacktestRunStatus

unfoldable pub run_status_eq : BacktestRunStatus → BacktestRunStatus → Bool
run_status_eq queued queued = true
run_status_eq running running = true
run_status_eq completed completed = true
run_status_eq failed failed = true
run_status_eq cancelled cancelled = true
run_status_eq _ _ = false

-- A row of `backtest_runs`, the `BacktestWorkerRun`.
pub record BacktestRun : Type 0 where
  pub id : Text
  pub tenant_id : Text
  pub name : Text
  pub policy_id : Text
  pub baseline : Baseline
  pub window_start : Text
  pub window_end : Text
  pub status : BacktestRunStatus
  pub input_snapshot_uri : Text
  pub output_uri : Option Text
  pub metrics : Fields
  pub error_details : Fields
  pub created_by_user_id : Option Text
  pub created_at : ℕ

-- A row that `completeBacktest` inserts into `report_snapshots`, with `source_type`
-- 'backtest_run'.
pub record ReportSnapshot : Type 0 where
  pub tenant_id : Text
  pub source_id : Text
  pub snapshot_json : Fields
  pub created_by_user_id : Option Text

-- `ORDER BY created_at ASC, id ASC`.
unfoldable pub compare_run_age : BacktestRun → BacktestRun → ℤ
unfolding compare_text
compare_run_age a b =
    if ltb a.created_at b.created_at
    then negsuc 0
    else if ltb b.created_at a.created_at
    then pos 1
    else compare_text a.id b.id

abbrev claimable : (Text → Bool) → BacktestRun → Bool
claimable locked r = run_status_eq r.status queued && (if locked r.id then false else true)

-- The SELECT of `claimNextQueuedBacktest`; `locked` are the rows that other transactions hold.
unfoldable pub next_queued_backtest : (Text → Bool) → List BacktestRun → Option BacktestRun
next_queued_backtest locked runs = head? (sort compare_run_age (filter (claimable locked) runs))

-- `UPDATE backtest_runs SET … WHERE id = $1 AND status = …`.
unfoldable pub update_backtests :
    Text → BacktestRunStatus → (BacktestRun → BacktestRun) → List BacktestRun → List BacktestRun
update_backtests id status change runs =
    map
      (λ (r : BacktestRun).
        if text_eq r.id id && run_status_eq r.status status then change r else r)
      runs

abbrev pub start_backtest : BacktestRun → BacktestRun
start_backtest r = record r { status = running }

abbrev pub finish_backtest : Text → Fields → BacktestRun → BacktestRun
finish_backtest output_uri metrics r = record r {
  status = completed;
  output_uri = some output_uri;
  metrics = metrics;
  error_details = end;
}

abbrev pub abandon_backtest : Text → BacktestRun → BacktestRun
abandon_backtest code r = record r {
  status = failed;
  output_uri = none;
  metrics = end;
  error_details = field (codes "code") (str code) end;
}
