-- ===== src/ArgonExecutor/Bounded.antt =====
-- The bounds of the pool, in every sequence of events.
use cloud_commitment_portfol.Base.{
  ℕ, suc, ◌≤◌, ◌≡◌, ◌∙◌, refl, sym, ap, subst, if_cases, none, ◌⊎◌, inl, inr, Bool, true, false,
  not, ◌&&◌, Option, some, List, [], ◌∷◌, length, any, ltb, leb, ◌==◌, length-append, Bool-cases,
  arith, some_inj,
}
use cloud_commitment_portfol.Base.Int.{ℤ}
use cloud_commitment_portfol.ArgonExecutor.{
  number, Options, Executor, Event, run, ends, close, validate_bounds, create_argon_executor,
  idle_executor, refuse, start, schedule, drain_from, drain, without, end_operation, close_executor,
  handle, handle_all,
}

-- As many operations run as are counted, never more than allowed; no more wait than allowed, and
-- none waits beside a free place or after the close.
pub record IsBounded (s : Executor) : Type 0 where
  pub counted : s.active ≡ length s.in_flight
  pub active_le : s.active ≤ s.options.concurrency
  pub queue_le : length s.queue ≤ s.options.queue_limit
  pub busy : (s.queue ≡ []) ⊎ (s.options.concurrency ≤ s.active)
  pub closed_empty : (s.closed ≡ false) ⊎ (s.queue ≡ [])

idle-IsBounded : (options : Options) → IsBounded (idle_executor options)
idle-IsBounded options = record {
  counted = refl;
  active_le = omega arith;
  queue_le = omega arith;
  busy = inl refl;
  closed_empty = inl refl;
}

refuse-IsBounded : (id : ℕ) (s : Executor) → IsBounded s → IsBounded (refuse id s)
unfolding refuse
refuse-IsBounded id s h = record {
  counted = h.counted;
  active_le = h.active_le;
  queue_le = h.queue_le;
  busy = h.busy;
  closed_empty = h.closed_empty;
}

schedule-IsBounded : (id : ℕ) (s : Executor) → IsBounded s → IsBounded (schedule id s)
unfolding schedule start
schedule-IsBounded id s h =
    if_cases IsBounded s.closed (λ _. refuse-IsBounded id s h)
      (λ e.
        if_cases IsBounded (ltb s.active s.options.concurrency)
          (λ f. record {
            counted = let c = h.counted in omega arith;
            active_le = ground arith;
            queue_le = h.queue_le;
            busy = inl (let b = h.busy in ground arith);
            closed_empty = h.closed_empty;
          })
          (λ f.
            if_cases IsBounded (leb s.options.queue_limit (length s.queue))
              (λ _. refuse-IsBounded id s h)
              (λ g. record {
                counted = h.counted;
                active_le = h.active_le;
                queue_le = rw (length-append s.queue (id ∷ [])) (ground arith);
                busy = inr (ground arith);
                closed_empty = inl e;
              })))

drain_from-IsBounded :
    (s : Executor) (rest : List ℕ)
    → s.active ≡ length s.in_flight
    → s.active ≤ s.options.concurrency
    → length rest ≤ s.options.queue_limit
    → (s.closed ≡ false) ⊎ (rest ≡ [])
    → IsBounded (drain_from s rest)
unfolding drain_from start
drain_from-IsBounded s [] c a q e = record {
  counted = c;
  active_le = a;
  queue_le = omega arith;
  busy = inl refl;
  closed_empty = inr refl;
}
drain_from-IsBounded s (id ∷ rest) c a q e =
    if_cases IsBounded (not s.closed && ltb s.active s.options.concurrency)
      (λ f.
        drain_from-IsBounded (start id s) rest (omega arith) (ground arith) (omega arith)
          (inl (ground arith)))
      (λ f. record {
        counted = c;
        active_le = a;
        queue_le = q;
        busy = inr (ground arith);
        closed_empty = e;
      })

length-without :
    (id : ℕ) (xs : List ℕ) → any (λ x. x == id) xs ≡ true → suc (length (without id xs)) ≡ length xs
length-without id [] h = absurd (cc)
length-without id (x ∷ xs) h = elim (Bool-cases (x == id)) [
  | inl e ↦ rw e refl
  | inr e ↦ rw e (let l = length-without id xs (rw e at h) in omega arith)
]

end_operation-IsBounded :
    (id : ℕ) (succeeded : Bool) (s : Executor)
    → any (λ x. x == id) s.in_flight ≡ true
    → IsBounded s
    → IsBounded (end_operation id succeeded s)
unfolding end_operation drain
end_operation-IsBounded id succeeded s found h =
    let l = length-without id s.in_flight found in
    let c = h.counted in
    let a = h.active_le in
    drain_from-IsBounded _ s.queue (omega arith) (omega arith) h.queue_le h.closed_empty

close_executor-IsBounded : (s : Executor) → IsBounded s → IsBounded (close_executor s)
unfolding close_executor
close_executor-IsBounded s h =
    if_cases IsBounded s.closed (λ _. h)
      (λ _. record {
        counted = h.counted;
        active_le = h.active_le;
        queue_le = omega arith;
        busy = inl refl;
        closed_empty = inr refl;
      })

-- Every event keeps the bounds.
pub handle-IsBounded : (event : Event) (s : Executor) → IsBounded s → IsBounded (handle event s)
unfolding handle
handle-IsBounded (run id) s h = schedule-IsBounded id s h
handle-IsBounded (ends id succeeded) s h =
    if_cases IsBounded (any (λ x. x == id) s.in_flight)
      (λ e. end_operation-IsBounded id succeeded s e h) (λ _. h)
handle-IsBounded close s h = close_executor-IsBounded s h

pub handle_all-IsBounded :
    (events : List Event) (s : Executor) → IsBounded s → IsBounded (handle_all events s)
unfolding handle_all
handle_all-IsBounded [] s h = h
handle_all-IsBounded (event ∷ events) s h =
    handle_all-IsBounded events (handle event s) (handle-IsBounded event s h)

drain_from-options : (s : Executor) (rest : List ℕ) → (drain_from s rest).options ≡ s.options
unfolding drain_from start
drain_from-options s [] = refl
drain_from-options s (id ∷ rest) =
    elim (Bool-cases (not s.closed && ltb s.active s.options.concurrency)) [
      | inl e ↦ rw e (drain_from-options (start id s) rest)
      | inr e ↦ rw e refl
    ]

handle-options : (event : Event) (s : Executor) → (handle event s).options ≡ s.options
unfolding handle schedule refuse start end_operation drain close_executor
handle-options (run id) s = ground arith
handle-options (ends id succeeded) s =
    if_cases (λ (t : Executor). t.options ≡ s.options) (any (λ x. x == id) s.in_flight)
      (λ _. drain_from-options _ s.queue) (λ _. refl)
handle-options close s = ground arith

pub handle_all-options :
    (events : List Event) (s : Executor) → (handle_all events s).options ≡ s.options
unfolding handle_all
handle_all-options [] s = refl
handle_all-options (event ∷ events) s =
    handle_all-options events (handle event s) ∙ handle-options event s

pub validate_bounds_lem :
    (concurrency queue_limit : Option ℤ)
    → validate_bounds concurrency queue_limit ≡ true
    → (1 ≤ number concurrency) × (number concurrency ≤ 2) × (number queue_limit ≤ 32)
unfolding validate_bounds
validate_bounds_lem none queue_limit h = absurd (cc)
validate_bounds_lem (some c) none h = ground arith
validate_bounds_lem (some c) (some q) h = ground arith

-- What creation gives: an idle executor with options in range.
pub create_argon_executor_lem :
    (concurrency queue_limit : Option ℤ) {created : Executor}
    → create_argon_executor concurrency queue_limit ≡ some created
    → (options : Options) × (created ≡ idle_executor options)
      × (1 ≤ options.concurrency)
      × (options.concurrency ≤ 2)
      × (options.queue_limit ≤ 32)
unfolding create_argon_executor
create_argon_executor_lem concurrency queue_limit h =
    elim (Bool-cases (validate_bounds concurrency queue_limit)) [
      | inl e ↦
          let (a, b, c) = validate_bounds_lem concurrency queue_limit e in
          (_, sym (some_inj (rw e at h)), a, b, c)
      | inr e ↦ absurd (let k = rw e at h in cc)
    ]

within_options :
    (s : Executor) (options : Options)
    → s.options ≡ options
    → options.concurrency ≤ 2
    → options.queue_limit ≤ 32
    → IsBounded s
    → (length s.in_flight ≤ 2) × (length s.queue ≤ 32) × IsBounded s
within_options s options same low high h =
    let a = h.counted in
    let b = h.active_le in
    let c = h.queue_le in
    let d : s.options.concurrency ≡ options.concurrency =
      ap (λ (o : Options). o.concurrency) same in
    let f : s.options.queue_limit ≡ options.queue_limit =
      ap (λ (o : Options). o.queue_limit) same in
    (omega arith, omega arith, h)

-- Whatever is called, ends and is closed in whatever order on an executor that was created without
-- an error, at most two operations run and at most 32 wait; as many run as are counted; and none
-- waits while fewer run than the options allow, nor after the close.
pub create_argon_executor-IsBounded :
    (concurrency queue_limit : Option ℤ) (events : List Event) {created : Executor}
    → create_argon_executor concurrency queue_limit ≡ some created
    → let s = handle_all events created in
      (length s.in_flight ≤ 2) × (length s.queue ≤ 32) × IsBounded s
create_argon_executor-IsBounded concurrency queue_limit events {created} h =
    let (options, e, _, low, high) = create_argon_executor_lem concurrency queue_limit h in
    let same : (handle_all events created).options ≡ options =
      handle_all-options events created ∙ ap (λ (s : Executor). s.options) e in
    let bounded : IsBounded (handle_all events created) =
      handle_all-IsBounded events created (subst IsBounded (sym e) (idle-IsBounded options)) in
    within_options (handle_all events created) options same low high bounded
