-- ===== src/ArgonExecutor.antt =====
-- core/tenant/argon-executor.ts: the bounded pool that runs password hashes. Operations are named
-- by numbers. `in_flight` and `settled` stand for the promises: the operations that were started
-- and have not ended, and those whose promise has been resolved (`true`) or rejected (`false`).
pub mod Bounded
pub mod Accounted
mod Tests
use cloud_commitment_portfol.Base.{
  ℕ, ◌+◌, ◌-◌, Bool, true, false, not, ◌&&◌, Option, none, some, List, [], ◌∷◌, ◌++◌, length, any,
  ltb, leb, ◌==◌, if◌then◌else◌,
}
use cloud_commitment_portfol.Base.Int.{ℤ, pos, pos_part, leb_ℤ}

-- `ArgonExecutorOptions`.
pub record Options : Type 0 where
  pub concurrency : ℕ
  pub queue_limit : ℕ

-- `ExecutorState`, with the promises.
pub record Executor : Type 0 where
  pub options : Options
  pub active : ℕ
  pub closed : Bool
  pub queue : List ℕ
  pub in_flight : List ℕ
  pub settled : List (ℕ × Bool)

abbrev pub max_argon_concurrency : ℤ
max_argon_concurrency = pos 2

abbrev pub max_argon_queue_limit : ℤ
max_argon_queue_limit = pos 32

abbrev pub within : ℤ → ℤ → Option ℤ → Bool
within low high none = false
within low high (some n) = leb_ℤ low n && leb_ℤ n high

-- `validateBounds`; `none` is a number that is not a safe integer.
unfoldable pub validate_bounds : Option ℤ → Option ℤ → Bool
validate_bounds concurrency queue_limit =
    within (pos 1) max_argon_concurrency concurrency
    && within (pos 0) max_argon_queue_limit queue_limit

abbrev pub number : Option ℤ → ℕ
number none = 0
number (some n) = pos_part n

abbrev pub idle_executor : Options → Executor
idle_executor options = record {
  options = options;
  active = 0;
  closed = false;
  queue = [];
  in_flight = [];
  settled = [];
}

-- `createArgonExecutor`; `none` is the ArgonExecutorConfigurationError.
unfoldable pub create_argon_executor : Option ℤ → Option ℤ → Option Executor
unfolding validate_bounds
create_argon_executor concurrency queue_limit =
    if validate_bounds concurrency queue_limit
    then some (
        idle_executor
          (record { concurrency = number concurrency; queue_limit = number queue_limit }))
    else none

-- `reject(unavailable())` of an operation that never ran.
unfoldable pub refuse : ℕ → Executor → Executor
refuse id s = record s { settled = (id, false) ∷ s.settled }

-- `start`, up to the point where the operation runs.
unfoldable pub start : ℕ → Executor → Executor
start id s = record s { active = s.active + 1; in_flight = id ∷ s.in_flight }

-- `schedule`.
unfoldable pub schedule : ℕ → Executor → Executor
unfolding refuse start
schedule id s =
    if s.closed
    then refuse id s
    else if ltb s.active s.options.concurrency
    then start id s
    else if leb s.options.queue_limit (length s.queue)
    then refuse id s
    else record s { queue = s.queue ++ id ∷ [] }

-- The loop of `drain`, over what is left of the queue.
unfoldable pub drain_from : Executor → List ℕ → Executor
unfolding start
drain_from s [] = record s { queue = [] }
drain_from s (id ∷ rest) =
    let next = drain_from (start id s) rest in
    if not s.closed && ltb s.active s.options.concurrency
    then next
    else record s { queue = id ∷ rest }

-- `drain`.
unfoldable pub drain : Executor → Executor
unfolding drain_from
drain s = drain_from s s.queue

abbrev pub without : ℕ → List ℕ → List ℕ
without id [] = []
without id (x ∷ xs) = if x == id then xs else x ∷ without id xs

-- The rest of the chain in `start`, when the operation ends: its promise is settled, and then
-- `finally` runs.
unfoldable pub end_operation : ℕ → Bool → Executor → Executor
unfolding drain
end_operation id succeeded s = drain (record s {
  active = s.active - 1;
  in_flight = without id s.in_flight;
  settled = (id, succeeded) ∷ s.settled;
})

unfoldable pub refuse_all : List ℕ → List (ℕ × Bool) → List (ℕ × Bool)
refuse_all [] settled = settled
refuse_all (id ∷ rest) settled = refuse_all rest ((id, false) ∷ settled)

-- `closeExecutor`.
unfoldable pub close_executor : Executor → Executor
unfolding refuse_all
close_executor s =
    if s.closed
    then s
    else record s { closed = true; queue = []; settled = refuse_all s.queue s.settled }

-- What happens to an executor: a call of `run`, the end of an operation, a call of `close`.
pub data Event : Type 0 where
  run : ℕ → Event
  ends : ℕ → Bool → Event
  close : Event

-- An operation ends only once it was started.
unfoldable pub handle : Event → Executor → Executor
unfolding schedule end_operation close_executor
handle (run id) s = schedule id s
handle (ends id succeeded) s =
    if any (λ x. x == id) s.in_flight then end_operation id succeeded s else s
handle close s = close_executor s

unfoldable pub handle_all : List Event → Executor → Executor
unfolding handle
handle_all [] s = s
handle_all (event ∷ events) s = handle_all events (handle event s)
