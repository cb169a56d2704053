-- ===== src/Optimizer/Worker/Settlement.antt =====
-- What `processNext` does to the table of runs, however its calls fail.
use cloud_commitment_portfol.Base.{◌≡◌, ◌⊎◌, Bool, true, false, Option, none, some, List, map}
use cloud_commitment_portfol.Base.Text.{Text, text_eq}
use cloud_commitment_portfol.Base.Action.{Result, ok, throw}
use cloud_commitment_portfol.Optimizer.Types.{
  RunStatus, queued, running, completed, failed, infeasible, cancelled, WorkerRun, Candidate,
}
use cloud_commitment_portfol.Optimizer.Documents.{infeasibility_details, frontier_key, output_key}
use cloud_commitment_portfol.Optimizer.Repository.{
  next_queued, update_row, update_runs, set_running, set_completed, set_infeasible,
}
use cloud_commitment_portfol.Optimizer.Worker.{
  World, Call, claim_next, fail, Failure, WorkerResult, processed, idle,
}

-- What the `try` block has done to the runs: it settled the run and said so, or it threw and left
-- them alone.
abbrev Finished : WorkerRun → List WorkerRun → WorkerResult → List WorkerRun → Type 0
Finished run before result after =
    ((result ≡ processed run.id completed (some (output_key run)) (some (frontier_key run)) 1)
      × (after
          ≡ update_runs run.id running (set_completed (output_key run) (frontier_key run)) before))
    ⊎ ((candidates : List Candidate) × (result
          ≡ processed run.id infeasible none (some (frontier_key run)) 0)
        × (after
            ≡ update_runs run.id running
                (set_infeasible (frontier_key run) (infeasibility_details candidates)) before))

abbrev Attempted : WorkerRun → List WorkerRun → Result Failure WorkerResult × World → Type 0
Attempted run before (ok result, w) = Finished run before result w.runs
Attempted run before (throw _, w) = w.runs ≡ before

abbrev pub IsTerminal : RunStatus → Type 0
IsTerminal queued = ⊥
IsTerminal running = ⊥
IsTerminal completed = Unit
IsTerminal failed = Unit
IsTerminal infeasible = Unit
IsTerminal cancelled = Unit

-- How one row of the table comes out of a run of the worker that reports `status` for `id`: it is
-- the claimed run's row, open before, with the status and the addresses reported; or it is another
-- row or one in a terminal status, as it was.
abbrev pub RowSettles :
    Text → RunStatus → Option Text → Option Text → WorkerRun → WorkerRun → Type 0
RowSettles id status output frontier r r' =
    ((text_eq r.id id ≡ true)
      × ((r.status ≡ queued) ⊎ (r.status ≡ running))
      × (r'.status ≡ status)
      × (r'.output_uri ≡ output)
      × (r'.frontier_uri ≡ frontier))
    ⊎ (((text_eq r.id id ≡ false) ⊎ IsTerminal r.status) × (r' ≡ r))

-- The table is settled for the run that was claimed, row by row.
abbrev pub Settles : (Text → Bool) → List WorkerRun → WorkerResult → List WorkerRun → Type 0
Settles locked before idle after = (next_queued locked before ≡ none) × (after ≡ before)
Settles locked before (processed id status output frontier n) after =
    (run : WorkerRun) × (next_queued locked before ≡ some run)
    × (run.id ≡ id)
    × (change : WorkerRun → WorkerRun) × (after ≡ map change before)
    × ((r : WorkerRun) → RowSettles id status output frontier r (change r))

-- A throw leaves the table alone, or, where the very update that records a failure has failed,
-- leaves the claimed run running.
abbrev pub Throws : (Call → Bool) → (Text → Bool) → List WorkerRun → List WorkerRun → Type 0
Throws fails locked before after =
    ((fails claim_next ≡ true) × (after ≡ before))
    ⊎ ((fails fail ≡ true)
        × (run : WorkerRun) × (next_queued locked before ≡ some run)
        × (after ≡ update_runs run.id queued set_running before))

abbrev pub Reports :
    (Call → Bool) → (Text → Bool) → List WorkerRun → Result Failure WorkerResult × World → Type 0
Reports fails locked before (ok result, w) = Settles locked before result w.runs
Reports fails locked before (throw _, w) = Throws fails locked before w.runs

module _ (id : Text) (change : WorkerRun → WorkerRun) where
  abbrev claim_then : WorkerRun → WorkerRun
  claim_then r = update_row id running change (update_row id queued set_running r)

abbrev SetsTo : RunStatus → Option Text → Option Text → (WorkerRun → WorkerRun) → WorkerRun → Type 0
SetsTo status output frontier change r =
    ((change r).status ≡ status)
    × ((change r).output_uri ≡ output)
    × ((change r).frontier_uri ≡ frontier)
