-- ===== src/Backtests/Worker/Outcome.antt =====
-- What `processNextBacktest` has done, by what it reports.
use cloud_commitment_portfol.Base.{Bool, true, false, ◌≡◌, ◌⊎◌, none, some, List, [], ◌∷◌, ◌++◌}
use cloud_commitment_portfol.Base.Text.{Text, codes}
use cloud_commitment_portfol.Base.Json.{Json, as_object}
use cloud_commitment_portfol.Base.Action.{Result, ok, throw}
use cloud_commitment_portfol.Backtests.Replay.{UsageMonth}
use cloud_commitment_portfol.Backtests.Repository.{
  queued, running, completed, failed, BacktestRun, next_queued_backtest, update_backtests,
  start_backtest, finish_backtest, abandon_backtest,
}
use cloud_commitment_portfol.Backtests.Artifact.{Metrics, build_metrics, metrics_json}
use cloud_commitment_portfol.Backtests.Worker.{
  Tables, Call, claim_next, fail, Failure, BacktestResult, idle, processed, stored, backtest_key,
  report_of,
}

module _ (usage : BacktestRun → List UsageMonth) where
  -- The run was completed from its frozen snapshot: its row has the metrics, and one report with
  -- the same metrics was added.
  abbrev pub Completes : BacktestRun → Tables → BacktestResult → Tables → Type 0
  Completes run before result after =
      (document : Json) × (stored run.input_snapshot_uri before.objects ≡ some document)
      × (metrics : Metrics) × (build_metrics run.baseline (as_object (some document)) (usage run)
          ≡ some metrics)
      × (result ≡ processed run.id completed (some (backtest_key run)) true)
      × (after.runs
          ≡ update_backtests run.id running
              (finish_backtest (backtest_key run) (metrics_json metrics)) before.runs)
      × (after.reports ≡ before.reports ++ report_of run metrics ∷ [])

  -- What the `try` block has done: all of that, or nothing to the tables and a throw.
  abbrev Attempted : BacktestRun → Tables → Result Failure BacktestResult × Tables → Type 0
  Attempted run before (ok result, after) = Completes run before result after
  Attempted run before (throw _, after) =
      (after.runs ≡ before.runs) × (after.reports ≡ before.reports)

  -- The run was given up: its row has failed, and no report was added.
  abbrev pub GivesUp : BacktestRun → Tables → BacktestResult → Tables → Type 0
  GivesUp run before result after =
      (result ≡ processed run.id failed none false)
      × (after.runs
          ≡ update_backtests run.id running (abandon_backtest (codes "BACKTEST_WORKER_FAILED"))
              before.runs)
      × (after.reports ≡ before.reports)

  -- The tables once the run is claimed.
  abbrev pub claimed : BacktestRun → Tables → Tables
  claimed run w = record w { runs = update_backtests run.id queued start_backtest w.runs }

  abbrev pub Outcome :
      (Call → Bool) → (Text → Bool) → Tables → Result Failure BacktestResult × Tables → Type 0
  Outcome fails locked before (ok result, after) =
      ((next_queued_backtest locked before.runs ≡ none) × (result ≡ idle) × (after ≡ before))
      ⊎ ((run : BacktestRun) × (next_queued_backtest locked before.runs ≡ some run)
          × (Completes (start_backtest run) (claimed run before) result after
              ⊎ GivesUp (start_backtest run) (claimed run before) result after))
  Outcome fails locked before (throw _, after) =
      ((fails claim_next ≡ true) × (after ≡ before))
      ⊎ ((fails fail ≡ true)
          × ((run : BacktestRun) × (next_queued_backtest locked before.runs ≡ some run)
              × (after.runs ≡ (claimed run before).runs)
              × (after.reports ≡ before.reports)))
