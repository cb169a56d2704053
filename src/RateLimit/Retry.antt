-- ===== src/RateLimit/Retry.antt =====
-- The wait that a refusal names: long enough, and not by a whole second too long.
use cloud_commitment_portfol.Base.{
  ℕ, ◌+◌, ◌*◌, ◌≤◌, ◌<◌, ◌≡◌, refl, sym, ◌⊎◌, inl, inr, Bool, true, false, some, List, [], ◌∷◌,
  ◌++◌, length, filter, All, All-append, All-weaken, length-append, length-filter, count_le_length,
  ltb, leb, if_cases, Bool-cases, some_inj, arith,
}
use cloud_commitment_portfol.Base.Text.{Text}
use cloud_commitment_portfol.Base.Action.{Result, ok}
use cloud_commitment_portfol.RateLimit.{
  RollingWindowDecision, Unavailable, bucket, live, current, Limiter, put_bucket, admit,
  admit_current, retry_after, retry_seconds,
}
use cloud_commitment_portfol.RateLimit.Buckets.{bucket-set_same}
use cloud_commitment_portfol.RateLimit.Reference.{lets}

abbrev pub Ascending : List ℕ → Type 0
Ascending [] = Unit
Ascending (t ∷ ts) = All (λ u. t ≤ u) ts × Ascending ts

-- A bucket of a limit: the oldest time first, none after the clock, no more than the limit.
pub record IsBucket (limit last : ℕ) (times : List ℕ) : Type 0 where
  pub ascending : Ascending times
  pub past : All (λ t. t ≤ last) times
  pub few : length times ≤ limit

All-kept : (P : ℕ → Type 0) (p : ℕ → Bool) (ts : List ℕ) → All P ts → All P (filter p ts)
All-kept P p [] h = tt
All-kept P p (t ∷ ts) (q, h) = elim (Bool-cases (p t)) [
  | inl e ↦ rw e (q, All-kept P p ts h)
  | inr e ↦ rw e (All-kept P p ts h)
]

Ascending-filter : (p : ℕ → Bool) (ts : List ℕ) → Ascending ts → Ascending (filter p ts)
Ascending-filter p [] h = tt
Ascending-filter p (t ∷ ts) (least, h) = elim (Bool-cases (p t)) [
  | inl e ↦ rw e (All-kept (λ u. t ≤ u) p ts least, Ascending-filter p ts h)
  | inr e ↦ rw e (Ascending-filter p ts h)
]

Ascending-snoc :
    (now : ℕ) (ts : List ℕ) → All (λ t. t ≤ now) ts → Ascending ts → Ascending (ts ++ now ∷ [])
Ascending-snoc now [] past h = (tt, tt)
Ascending-snoc now (t ∷ ts) (le, past) (least, h) =
    (All-append (λ u. t ≤ u) ts (now ∷ []) least (le, tt), Ascending-snoc now ts past h)

module _ (limit window last now : ℕ) (le : last ≤ now) (times : List ℕ) where
  current-IsBucket : IsBucket limit last times → IsBucket limit now (current window now times)
  unfolding current
  current-IsBucket h = record {
    ascending = Ascending-filter (live window now) times h.ascending;
    past =
        All-kept (λ t. t ≤ now) (live window now) times
          (All-weaken (λ t p. omega arith) times h.past);
    few = omega (
      arith,
      h.few,
      length-filter (live window now) times,
      count_le_length (live window now) times,
    );
  }

  recorded-IsBucket :
      IsBucket limit last times
      → length (current window now times) < limit
      → IsBucket limit now (current window now times ++ now ∷ [])
  recorded-IsBucket h room =
      let c = current-IsBucket h in
      record {
        ascending = Ascending-snoc now (current window now times) c.past c.ascending;
        past =
            All-append (λ t. t ≤ now) (current window now times) (now ∷ []) c.past
              (omega arith, tt);
        few = omega (arith, length-append (current window now times) (now ∷ []));
      }

module _ (key : Text) (limit window now : ℕ) (s : Limiter) where
  abbrev kept : List ℕ
  kept = current window now (bucket key s.buckets)

  -- A call with the key's limit keeps its bucket in order and within the limit.
  pub admit-IsBucket :
      (last : ℕ)
      → last ≤ now
      → IsBucket limit last (bucket key s.buckets)
      → IsBucket limit now (bucket key (admit now key limit window s).1.buckets)
  unfolding admit admit_current
  admit-IsBucket last le h =
      if_cases Keeps s.closed (λ e. past_now)
        (λ e.
          if_cases Keeps (leb limit (length kept))
            (λ f.
              rw (bucket-set_same key kept s.buckets)
                (current-IsBucket limit window last now le (bucket key s.buckets) h))
            (λ f.
              rw (bucket-set_same key (kept ++ now ∷ []) s.buckets) (
                recorded-IsBucket limit window last now le (bucket key s.buckets) h
                  (ground arith))))
    where
      Keeps : Result Unavailable RollingWindowDecision × Limiter → Type 0
      Keeps r = IsBucket limit now (bucket key r.1.buckets)

      past_now : IsBucket limit now (bucket key s.buckets)
      past_now = record {
        ascending = h.ascending;
        past = All-weaken (λ t p. omega arith) (bucket key s.buckets) h.past;
        few = h.few;
      }

  abbrev Refused : ℕ → Limiter → Type 0
  Refused r s' =
      (s.closed ≡ false)
      × (put_bucket key kept s ≡ s')
      × (limit ≤ length kept)
      × (retry_after window now kept ≡ some r)

  -- What a refusal has found.
  admit-Refused :
      (r : ℕ) (s' : Limiter)
      → admit now key limit window s
        ≡ (ok record { allowed = false; retry_after_seconds = some r }, s')
      → Refused r s'
  unfolding admit admit_current
  admit-Refused r s' =
      if_cases Found s.closed (λ e h. absurd (cc))
        (λ e.
          if_cases Found (leb limit (length kept)) (λ f h. (e, cc, ground arith, cc))
            (λ f h. absurd (cc)))
    where
      Found : Result Unavailable RollingWindowDecision × Limiter → Type 0
      Found x = x ≡ (ok record { allowed = false; retry_after_seconds = some r }, s') → Refused r s'

  -- The same key later: whether the times that are still live leave room.
  admit-later :
      (times : List ℕ) (u : ℕ)
      → s.closed ≡ false
      → lets (admit u key limit window (put_bucket key times s)).0
        ≡ ltb (length (current window u times)) limit
  unfolding admit admit_current
  admit-later times u e =
      rw (e, bucket-set_same key times s.buckets)
        (if_cases
          (λ (r : Result Unavailable RollingWindowDecision × Limiter).
            lets r.0 ≡ ltb (length (current window u times)) limit)
          (leb limit (length (current window u times))) (λ f. ground arith) (λ f. ground arith))

retry_seconds-bounds :
    (window now oldest : ℕ)
    → now < oldest + window
    → (1 ≤ retry_seconds window now oldest)
      × (oldest + window ≤ now + 1000 * retry_seconds window now oldest)
      × (now + 1000 * retry_seconds window now oldest < oldest + window + 1000)
unfolding retry_seconds
retry_seconds-bounds window now oldest h = (ground arith, ground arith, ground arith)

current-All : (window u : ℕ) (ts : List ℕ) → All (λ t. u < t + window) ts → current window u ts ≡ ts
unfolding current
current-All window u [] h = refl
current-All window u (t ∷ ts) (p, h) = ground (arith, current-All window u ts h)

kept_live :
    (window now : ℕ) (ts : List ℕ) → All (λ t. live window now t ≡ true) (current window now ts)
unfolding current
kept_live window now [] = tt
kept_live window now (t ∷ ts) = elim (Bool-cases (live window now t)) [
  | inl e ↦ rw e (e, kept_live window now ts)
  | inr e ↦ rw e (kept_live window now ts)
]

length-current : (window u : ℕ) (ts : List ℕ) → length (current window u ts) ≤ length ts
unfolding current
length-current window u ts =
    omega (arith, length-filter (live window u) ts, count_le_length (live window u) ts)

current-drops :
    (window u oldest : ℕ) (ts : List ℕ)
    → oldest + window ≤ u
    → length (current window u (oldest ∷ ts)) ≤ length ts
unfolding current
current-drops window u oldest ts gone = ground (arith, length-current window u ts)

module _ (limit window now oldest : ℕ) (ts : List ℕ) (h : IsBucket limit now (oldest ∷ ts))
    (live_oldest : now < oldest + window) (full : limit ≤ length (oldest ∷ ts)) (u : ℕ)
    (le : now ≤ u) where
  abbrev wait_end : ℕ
  wait_end = now + 1000 * retry_seconds window now oldest

  abbrev room_later : Bool
  room_later = ltb (length (current window u (oldest ∷ ts))) limit

  wait-enough : (u < wait_end) ⊎ (room_later ≡ true)
  wait-enough = elim (Bool-cases (ltb u wait_end)) [
    | inl e ↦ inl (ground arith)
    | inr e ↦
        let (_, reached, _) = retry_seconds-bounds window now oldest live_oldest in
        let gone : oldest + window ≤ u = ground arith in
        let dropped = current-drops window u oldest ts gone in inr (ground (arith, h.few, dropped))
  ]

  wait-needed : (wait_end < u + 1000) ⊎ (room_later ≡ false)
  wait-needed = elim (Bool-cases (ltb wait_end (u + 1000))) [
    | inl e ↦ inl (ground arith)
    | inr e ↦
        let (_, _, near) = retry_seconds-bounds window now oldest live_oldest in
        let held : u < oldest + window = ground arith in
        let all_held : current window u (oldest ∷ ts) ≡ oldest ∷ ts =
          current-All window u (oldest ∷ ts)
            (held, All-weaken (λ t p. omega arith) ts h.ascending.0) in
        inr (rw all_held (ground arith))
  ]

wait-exact :
    (limit window now : ℕ) (times : List ℕ) (r u : ℕ)
    → IsBucket limit now times
    → All (λ t. live window now t ≡ true) times
    → limit ≤ length times
    → retry_after window now times ≡ some r
    → now ≤ u
    → ((u < now + 1000 * r) ⊎ (ltb (length (current window u times)) limit ≡ true))
      × ((now + 1000 * r < u + 1000) ⊎ (ltb (length (current window u times)) limit ≡ false))
unfolding retry_after
wait-exact limit window now [] r u h alive full e le = absurd (cc)
wait-exact limit window now (oldest ∷ ts) r u h (alive, _) full e le =
    let live_oldest : now < oldest + window = ground arith in
    rw (sym (some_inj e)) (
      wait-enough limit window now oldest ts h live_oldest full u le,
      wait-needed limit window now oldest ts h live_oldest full u le,
    )

-- A key that a full bucket refuses for `r` seconds is let through when it comes back after them,
-- and refused again when it comes back a second or more before their end, if no call of the key lies
-- between; the bucket is one that calls with the key's limit have kept.
pub admit-retry_exact :
    (key : Text) (limit window last now r u : ℕ) (s s' : Limiter)
    → IsBucket limit last (bucket key s.buckets)
    → last ≤ now
    → admit now key limit window s
      ≡ (ok record { allowed = false; retry_after_seconds = some r }, s')
    → now ≤ u
    → ((u < now + 1000 * r) ⊎ (lets (admit u key limit window s').0 ≡ true))
      × ((now + 1000 * r < u + 1000) ⊎ (lets (admit u key limit window s').0 ≡ false))
admit-retry_exact key limit window last now r u s s' h le refused later =
    let (is_open, state, full, seconds) = admit-Refused key limit window now s r s' refused in
    rw
      (
        sym state,
        admit-later key limit window now s (current window now (bucket key s.buckets)) u is_open,
      )
      (wait-exact limit window now (current window now (bucket key s.buckets)) r u
        (current-IsBucket limit window last now le (bucket key s.buckets) h)
        (kept_live window now (bucket key s.buckets)) full seconds later)
