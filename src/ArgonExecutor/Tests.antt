-- ===== src/ArgonExecutor/Tests.antt =====
-- One place and one seat in the queue, with three calls.
use cloud_commitment_portfol.Base.{
  ◌≡◌, ◌≤◌, ◌⊎◌, refl, true, false, some, none, List, [], ◌∷◌, count, length, ◌==◌,
}
use cloud_commitment_portfol.Base.Int.{pos}
use cloud_commitment_portfol.ArgonExecutor.{
  Executor, Event, run, ends, close, create_argon_executor, idle_executor, validate_bounds,
  handle_all, handle, schedule, refuse, start, end_operation, drain, drain_from, close_executor,
  refuse_all,
}
use cloud_commitment_portfol.ArgonExecutor.Bounded.{IsBounded, create_argon_executor-IsBounded}
use cloud_commitment_portfol.ArgonExecutor.Accounted.{
  known, called, names, create_argon_executor-settles,
}

pool : Unit {0}
unfolding create_argon_executor validate_bounds handle_all handle schedule refuse start
    end_operation drain drain_from close_executor refuse_all
pool = tt

abbrev small : Executor
small = idle_executor (record { concurrency = 1; queue_limit = 1 })

abbrev events : List Event
events = run 7 ∷ run 8 ∷ run 9 ∷ ends 7 true ∷ []

created : create_argon_executor (some (pos 1)) (some (pos 1)) ≡ some small
unfolding pool
created = refl

out_of_range : create_argon_executor (some (pos 3)) (some (pos 1)) ≡ none
unfolding pool
out_of_range = refl

-- The third call is refused; the second runs once the first has ended.
second_runs : (handle_all events small).in_flight ≡ 8 ∷ []
unfolding pool
second_runs = refl

settled_in_order : (handle_all events small).settled ≡ (7, true) ∷ (9, false) ∷ []
unfolding pool
settled_in_order = refl

-- A close refuses what waits and lets what runs go on.
closed_queue : (handle_all (run 7 ∷ run 8 ∷ close ∷ []) small).settled ≡ (8, false) ∷ []
unfolding pool
closed_queue = refl

IsBounded_example :
    (length (handle_all events small).in_flight ≤ 2)
    × (length (handle_all events small).queue ≤ 32)
    × IsBounded (handle_all events small)
IsBounded_example = create_argon_executor-IsBounded (some (pos 1)) (some (pos 1)) events created

settles_example :
    (known (λ id. id == 8) (handle_all events small) ≡ count (λ id. id == 8) (called events))
    × ((1 ≤ length (handle_all events small).in_flight)
        ⊎ (((handle_all events small).queue ≡ [])
            × (count (λ id. id == 8) (names (handle_all events small).settled)
                ≡ count (λ id. id == 8) (called events))))
settles_example =
    create_argon_executor-settles (λ id. id == 8) (some (pos 1)) (some (pos 1)) events created
