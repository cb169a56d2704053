-- ===== src/Optimizer/Worker/Outcome.antt =====
-- Which recommendation `processNext` inserts, and when.
use cloud_commitment_portfol.Base.{◌≡◌, ◌⊎◌, Bool, true, some, List}
use cloud_commitment_portfol.Base.Text.{Text}
use cloud_commitment_portfol.Base.Json.{Json, as_object}
use cloud_commitment_portfol.Base.Action.{Result, ok, throw}
use cloud_commitment_portfol.Optimizer.Types.{
  queued, running, completed, failed, infeasible, cancelled, WorkerRun,
}
use cloud_commitment_portfol.Optimizer.Repository.{RecommendationRow}
use cloud_commitment_portfol.Optimizer.Worker.{
  World, Call, Failure, complete, WorkerResult, processed, idle, lookup,
}
use cloud_commitment_portfol.Optimizer.Worker.Recorded.{Recommends, Recorded}

-- The recommendation is that of the run's own frozen snapshot, which the object store holds.
abbrev pub FromSnapshot : WorkerRun → World → List RecommendationRow → Type 0
FromSnapshot run w after =
    (document : Json) × (lookup run.input_snapshot_uri w.objects ≡ some document)
    × Recommends run (as_object (some document)) w.recommendations after

-- The recommendations after `processNext`, by what it reports.
abbrev pub Concludes :
    (Call → Bool)
    → (List RecommendationRow → Type 0)
    → List RecommendationRow
    → Result Failure WorkerResult × World
    → Type 0
Concludes fails R before (ok idle, w) = w.recommendations ≡ before
Concludes fails R before (ok (processed id completed o f n), w) = R w.recommendations
Concludes fails R before (ok (processed id infeasible o f n), w) = w.recommendations ≡ before
Concludes fails R before (ok (processed id failed o f n), w) =
    (w.recommendations ≡ before) ⊎ ((fails complete ≡ true) × R w.recommendations)
Concludes fails R before (ok (processed id queued o f n), w) = ⊥
Concludes fails R before (ok (processed id running o f n), w) = ⊥
Concludes fails R before (ok (processed id cancelled o f n), w) = ⊥
Concludes fails R before (throw _, w) =
    (w.recommendations ≡ before) ⊎ ((fails complete ≡ true) × R w.recommendations)
