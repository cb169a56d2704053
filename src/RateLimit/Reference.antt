-- ===== src/RateLimit/Reference.antt =====
-- A reference for the limiter in memory: it forgets nothing and counts, at each call, the earlier
-- admissions of the same key that the window still holds.
use cloud_commitment_portfol.Base.{
  ℕ, ◌≤◌, ◌≡◌, refl, sym, subst, Bool, true, false, ◌&&◌, List, [], ◌∷◌, ◌++◌, length, count, ltb,
  leb, if◌then◌else◌, if_cases, Bool-cases, length-filter, inl, inr, arith,
}
use cloud_commitment_portfol.Base.Text.{Text, text_eq, text_eq_iff}
use cloud_commitment_portfol.Base.Action.{Result, ok, throw}
use cloud_commitment_portfol.RateLimit.{
  RollingWindowDecision, Unavailable, bucket, set_bucket, live, current, Limiter, new_limiter,
  put_bucket, admit, admit_current,
}
use cloud_commitment_portfol.RateLimit.Buckets.{bucket-set_same, bucket-set_other}
use cloud_commitment_portfol.RateLimit.Window.{Ordered, count-append, count-current}

-- A call of `admit`: the time that the clock shows, the key and the limit.
pub record Call : Type 0 where
  pub at_ms : ℕ
  pub key : Text
  pub limit : ℕ

abbrev pub lets : Result Unavailable RollingWindowDecision → Bool
lets (ok decision) = decision.allowed
lets (throw e) = false

-- Every key is always asked for with the same window.
module _ (window : Text → ℕ) where
  abbrev pub ask : Call → Limiter → Result Unavailable RollingWindowDecision × Limiter
  ask c s = admit c.at_ms c.key c.limit (window c.key) s

  -- The answers to a sequence of calls.
  abbrev pub answers : List Call → Limiter → List Bool
  answers [] s = []
  answers (c ∷ cs) s = let (r, s') = ask c s in lets r ∷ answers cs s'

  abbrev pub held : Text → ℕ → Call → Bool
  held key u e = text_eq e.key key && live (window key) u e.at_ms

  abbrev pub has_room : List Call → Call → Bool
  has_room admitted c = ltb (count (held c.key c.at_ms) admitted) c.limit

  abbrev pub extend : Bool → Call → List Call → List Call
  extend room c admitted = if room then c ∷ admitted else admitted

  -- The answers of the reference; `admitted` are the calls let through so far.
  abbrev pub reference : List Call → List Call → List Bool
  reference [] admitted = []
  reference (c ∷ cs) admitted =
      has_room admitted c ∷ reference cs (extend (has_room admitted c) c admitted)

  -- The buckets count, now and later, what the reference counts.
  record Agrees (last : ℕ) (s : Limiter) (admitted : List Call) : Type 0 where
    is_open : s.closed ≡ false
    same :
        (key : Text) (u : ℕ)
        → last ≤ u
        → count (live (window key) u) (bucket key s.buckets) ≡ count (held key u) admitted

  module _ (last : ℕ) (c : Call) (le : last ≤ c.at_ms) (s : Limiter) (admitted : List Call) where
    abbrev kept : List ℕ
    kept = current (window c.key) c.at_ms (bucket c.key s.buckets)

    -- Times that count what the reference counts for the key of the call may take its bucket.
    put-Agrees :
        (times : List ℕ) (admitted' : List Call)
        → Agrees last s admitted
        → ((u : ℕ)
            → c.at_ms ≤ u
            → count (live (window c.key) u) times ≡ count (held c.key u) admitted')
        → ((key : Text) (u : ℕ)
            → text_eq c.key key ≡ false
            → count (held key u) admitted' ≡ count (held key u) admitted)
        → Agrees c.at_ms (put_bucket c.key times s) admitted'
    put-Agrees times admitted' h own others = record {
      is_open = h.is_open;
      same = λ key u now_le. elim (Bool-cases (text_eq c.key key)) [
        | inl e ↦
            let p : c.key ≡ key = (text_eq_iff c.key key).0 e in
            subst
              (λ k.
                count (live (window k) u) (bucket k (set_bucket c.key times s.buckets))
                ≡ count (held k u) admitted')
              p (rw (bucket-set_same c.key times s.buckets) (own u now_le))
        | inr e ↦
            rw (bucket-set_other key c.key times s.buckets e, others key u e)
              (h.same key u (omega arith))
      ];
    }

    refused-Agrees : Agrees last s admitted → Agrees c.at_ms (put_bucket c.key kept s) admitted
    refused-Agrees h =
        put-Agrees kept admitted h
          (λ u now_le. omega (
            arith,
            count-current (window c.key) c.at_ms u now_le (bucket c.key s.buckets),
            h.same c.key u,
          ))
          (λ key u e. refl)

    admitted-Agrees :
        Agrees last s admitted
        → Agrees c.at_ms (put_bucket c.key (kept ++ c.at_ms ∷ []) s) (c ∷ admitted)
    admitted-Agrees h =
        let itself : text_eq c.key c.key ≡ true = (text_eq_iff c.key c.key).1 refl in
        put-Agrees (kept ++ c.at_ms ∷ []) (c ∷ admitted) h
          (λ u now_le. rw itself (
            omega (
              arith,
              count-append (live (window c.key) u) kept (c.at_ms ∷ []),
              count-current (window c.key) c.at_ms u now_le (bucket c.key s.buckets),
              h.same c.key u,
            )))
          (λ key u e. rw e (omega arith))

    length-kept : Agrees last s admitted → length kept ≡ count (held c.key c.at_ms) admitted
    unfolding current
    length-kept h = omega (
      arith,
      length-filter (live (window c.key) c.at_ms) (bucket c.key s.buckets),
      h.same c.key c.at_ms le,
    )

    ask-lets : Agrees last s admitted → lets (ask c s).0 ≡ has_room admitted c
    unfolding admit admit_current
    ask-lets h =
        if_cases
          (λ (r : Result Unavailable RollingWindowDecision × Limiter).
            lets r.0 ≡ has_room admitted c)
          s.closed (λ e. absurd (cc))
          (λ e.
            if_cases
              (λ (r : Result Unavailable RollingWindowDecision × Limiter).
                lets r.0 ≡ has_room admitted c)
              (leb c.limit (length kept)) (λ f. ground (arith, length-kept h))
              (λ f. ground (arith, length-kept h)))

    abbrev Next : Result Unavailable RollingWindowDecision × Limiter → Type 0
    Next r = Agrees c.at_ms r.1 (extend (has_room admitted c) c admitted)

    ask-Agrees :
        Agrees last s admitted
        → Agrees c.at_ms (ask c s).1 (extend (has_room admitted c) c admitted)
    unfolding admit admit_current
    ask-Agrees h =
        if_cases Next s.closed (λ e. absurd (cc))
          (λ e.
            if_cases Next (leb c.limit (length kept))
              (λ f.
                let full : has_room admitted c ≡ false = ground (arith, length-kept h) in
                subst (λ room. Agrees c.at_ms (put_bucket c.key kept s) (extend room c admitted))
                  (sym full) (refused-Agrees h))
              (λ f.
                let room : has_room admitted c ≡ true = ground (arith, length-kept h) in
                subst
                  (λ room.
                    Agrees c.at_ms (put_bucket c.key (kept ++ c.at_ms ∷ []) s)
                      (extend room c admitted))
                  (sym room) (admitted-Agrees h)))

  answers_from :
      (cs : List Call) (last : ℕ) (s : Limiter) (admitted : List Call)
      → Agrees last s admitted
      → Ordered (λ (c : Call). c.at_ms) last cs
      → answers cs s ≡ reference cs admitted
  answers_from [] last s admitted h _ = refl
  answers_from (c ∷ cs) last s admitted h (le, ordered) =
      let first = ask-lets last c le s admitted h in
      let rest =
        answers_from cs c.at_ms (ask c s).1 (extend (has_room admitted c) c admitted)
          (ask-Agrees last c le s admitted h) ordered in
      cc

  -- A new limiter answers every sequence of calls in the order of the clock as the reference does,
  -- whatever keys and limits they name, each key with one window.
  pub answers-reference :
      (cs : List Call)
      → Ordered (λ (c : Call). c.at_ms) 0 cs
      → answers cs new_limiter ≡ reference cs []
  answers-reference cs ordered =
      answers_from cs 0 new_limiter [] record { is_open = refl; same = λ key u le. refl } ordered
