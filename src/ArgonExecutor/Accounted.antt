-- ===== src/ArgonExecutor/Accounted.antt =====
-- What becomes of the operations that are handed to the pool.
use cloud_commitment_portfol.Base.{
  ℕ, ◌+◌, ◌≤◌, ◌≡◌, ◌∙◌, refl, ap, ◌⊎◌, inl, inr, Bool, true, false, not, ◌&&◌, Option, some, List,
  [], ◌∷◌, ◌++◌, count_le_length, count, length, any, ltb, leb, ◌==◌, if_cases, Bool-cases,
  if◌then◌else◌, arith,
}
use cloud_commitment_portfol.Base.Int.{ℤ}
use cloud_commitment_portfol.ArgonExecutor.{
  Options, Executor, Event, run, ends, close, create_argon_executor, refuse, start, schedule,
  drain_from, drain, without, end_operation, refuse_all, close_executor, handle, handle_all,
}
use cloud_commitment_portfol.ArgonExecutor.Bounded.{
  IsBounded, create_argon_executor_lem, handle_all-options, create_argon_executor-IsBounded,
}

abbrev pub names : List (ℕ × Bool) → List ℕ
names [] = []
names ((id, succeeded) ∷ settled) = id ∷ names settled

-- How many of the operations that pass a test run, wait or are settled.
abbrev pub known : (ℕ → Bool) → Executor → ℕ
known p s = count p s.in_flight + count p s.queue + count p (names s.settled)

abbrev pub called : List Event → List ℕ
called [] = []
called (run id ∷ events) = id ∷ called events
called (ends id succeeded ∷ events) = called events
called (close ∷ events) = called events

module _ (p : ℕ → Bool) where
  abbrev one : ℕ → ℕ
  one id = if p id then 1 else 0

  count-append : (xs ys : List ℕ) → count p (xs ++ ys) ≡ count p xs + count p ys
  count-append [] ys = omega arith
  count-append (x ∷ xs) ys = omega (arith, count-append xs ys)

  count-without :
      (id : ℕ) (xs : List ℕ)
      → any (λ x. x == id) xs ≡ true
      → one id + count p (without id xs) ≡ count p xs
  count-without id [] h = absurd (cc)
  count-without id (x ∷ xs) h = elim (Bool-cases (x == id)) [
    | inl e ↦ let same : x ≡ id = ground arith in rw (e, same) refl
    | inr e ↦ rw e (let l = count-without id xs (rw e at h) in omega arith)
  ]

  schedule-known : (id : ℕ) (s : Executor) → known p (schedule id s) ≡ one id + known p s
  unfolding schedule refuse start
  schedule-known id s =
      if_cases (λ (t : Executor). known p t ≡ one id + known p s) s.closed (λ _. omega arith)
        (λ _.
          if_cases (λ (t : Executor). known p t ≡ one id + known p s)
            (ltb s.active s.options.concurrency) (λ _. omega arith)
            (λ _.
              if_cases (λ (t : Executor). known p t ≡ one id + known p s)
                (leb s.options.queue_limit (length s.queue)) (λ _. omega arith)
                (λ _. omega (arith, count-append s.queue (id ∷ [])))))

  drain_from-known :
      (s : Executor) (rest : List ℕ)
      → known p (drain_from s rest) ≡ count p s.in_flight + count p rest + count p (names s.settled)
  unfolding drain_from start
  drain_from-known s [] = refl
  drain_from-known s (id ∷ rest) =
      if_cases
        (λ (t : Executor).
          known p t ≡ count p s.in_flight + (one id + count p rest) + count p (names s.settled))
        (not s.closed && ltb s.active s.options.concurrency)
        (λ _. drain_from-known (start id s) rest ∙ omega arith) (λ _. refl)

  refuse_all-known :
      (queue : List ℕ) (settled : List (ℕ × Bool))
      → count p (names (refuse_all queue settled)) ≡ count p queue + count p (names settled)
  unfolding refuse_all
  refuse_all-known [] settled = omega arith
  refuse_all-known (id ∷ queue) settled =
      refuse_all-known queue ((id, false) ∷ settled) ∙ omega arith

  handle-known :
      (event : Event) (s : Executor)
      → known p (handle event s) ≡ count p (called (event ∷ [])) + known p s
  unfolding handle end_operation drain close_executor
  handle-known (run id) s = schedule-known id s ∙ omega arith
  handle-known (ends id succeeded) s =
      if_cases (λ (t : Executor). known p t ≡ known p s) (any (λ x. x == id) s.in_flight)
        (λ e. drain_from-known _ s.queue ∙ omega (arith, count-without id s.in_flight e))
        (λ _. refl)
      ∙ omega arith
  handle-known close s =
      if_cases (λ (t : Executor). known p t ≡ known p s) s.closed (λ _. refl)
        (λ _. omega (arith, refuse_all-known s.queue s.settled))
      ∙ omega arith

  handle_all-known :
      (events : List Event) (s : Executor)
      → known p (handle_all events s) ≡ count p (called events) + known p s
  unfolding handle_all
  handle_all-known [] s = omega arith
  handle_all-known (run id ∷ events) s =
      handle_all-known events (handle (run id) s) ∙ omega (arith, handle-known (run id) s)
  handle_all-known (ends id succeeded ∷ events) s =
      handle_all-known events (handle (ends id succeeded) s)
      ∙ omega (arith, handle-known (ends id succeeded) s)
  handle_all-known (close ∷ events) s =
      handle_all-known events (handle close s) ∙ omega (arith, handle-known close s)

settled_lem :
    (p : ℕ → Bool) (s : Executor) (n : ℕ)
    → IsBounded s
    → 1 ≤ s.options.concurrency
    → known p s ≡ n
    → (1 ≤ length s.in_flight) ⊎ ((s.queue ≡ []) × (count p (names s.settled) ≡ n))
settled_lem p s n h places e = elim (Bool-cases (ltb 0 (length s.in_flight))) [
  | inl f ↦ inl (ground arith)
  | inr f ↦
      let c = h.counted in
      let nothing : s.queue ≡ [] = elim h.busy [ inl q ↦ q | inr full ↦ absurd (ground arith) ] in
      let waiting : count p s.queue ≡ 0 = ap (count p) nothing in
      let running = count_le_length p s.in_flight in inr (nothing, ground arith)
]

-- No call is lost or settled twice: on an executor that was created without an error, the calls
-- that pass a test are, after any events, as many as run, wait or are settled. Once nothing runs,
-- nothing waits either, and every call has been settled exactly once.
pub create_argon_executor-settles :
    (p : ℕ → Bool) (concurrency queue_limit : Option ℤ) (events : List Event) {created : Executor}
    → create_argon_executor concurrency queue_limit ≡ some created
    → let s = handle_all events created in
      (known p s ≡ count p (called events))
      × ((1 ≤ length s.in_flight)
          ⊎ ((s.queue ≡ []) × (count p (names s.settled) ≡ count p (called events))))
create_argon_executor-settles p concurrency queue_limit events {created} h =
    let (options, e, one_at_least, _, _) = create_argon_executor_lem concurrency queue_limit h in
    let bounded = create_argon_executor-IsBounded concurrency queue_limit events h in
    let same : (handle_all events created).options ≡ options =
      handle_all-options events created ∙ ap (λ (s : Executor). s.options) e in
    let places : (handle_all events created).options.concurrency ≡ options.concurrency =
      ap (λ (o : Options). o.concurrency) same in
    let none_known : known p created ≡ 0 = ap (known p) e in
    let all_known : known p (handle_all events created) ≡ count p (called events) =
      handle_all-known p events created ∙ omega arith in
    (all_known, settled_lem p _ _ bounded.2 (omega arith) all_known)
