-- ===== src/RateLimit/Session.antt =====
-- core/tenant/auth-session-limiter.ts: the limiter in memory of logins and refreshes. The SHA-256
-- digest of `node:crypto` is a parameter.
pub mod Bounds
use cloud_commitment_portfol.Base.{
  ℕ, ◌+◌, Bool, true, false, ◌||◌, Option, none, some, List, [], ◌∷◌, ◌++◌, length, ltb, leb,
  if◌then◌else◌,
}
use cloud_commitment_portfol.Base.Text.{Text, codes}
use cloud_commitment_portfol.Base.Action.{Result, ok, throw}
use cloud_commitment_portfol.RateLimit.{
  RollingWindowDecision, Unavailable, unavailable, Buckets, bucket, set_bucket, current,
  retry_seconds, max_nat, Limiter, no_buckets,
}

abbrev pub login_window : ℕ
login_window = 900000

abbrev pub refresh_window : ℕ
refresh_window = 300000

abbrev pub admitted : RollingWindowDecision
admitted = record { allowed = true; retry_after_seconds = none }

abbrev pub denied : ℕ → RollingWindowDecision
denied seconds = record { allowed = false; retry_after_seconds = some seconds }

-- `retry`.
unfoldable pub retry : ℕ → ℕ → List ℕ → ℕ
retry window now [] = 1
retry window now (oldest ∷ times) = retry_seconds window now oldest

abbrev pub dual_seconds : ℕ → ℕ → List ℕ → List ℕ → Bool → Bool → ℕ
dual_seconds window now left right left_full right_full =
    max_nat (if left_full then retry window now left else 0)
      (if right_full then retry window now right else 0)

abbrev pub admit_dual_current :
    Text → Text → ℕ → ℕ → ℕ → ℕ → List ℕ → List ℕ → Buckets → RollingWindowDecision × Buckets
admit_dual_current first second first_limit second_limit window now left right buckets =
    let left_full = leb first_limit (length left) in
    let right_full = leb second_limit (length right) in
    if left_full || right_full
    then (denied (dual_seconds window now left right left_full right_full), buckets)
    else (
      admitted,
      set_bucket second (right ++ now ∷ []) (set_bucket first (left ++ now ∷ []) buckets),
    )

-- `admitDual`.
unfoldable pub admit_dual : Text → Text → ℕ → ℕ → ℕ → ℕ → Buckets → RollingWindowDecision × Buckets
admit_dual first second first_limit second_limit window now buckets =
    admit_dual_current first second first_limit second_limit window now
      (current window now (bucket first buckets)) (current window now (bucket second buckets))
      buckets

-- `admitOne`.
unfoldable pub admit_one : Text → ℕ → ℕ → ℕ → Buckets → RollingWindowDecision × Buckets
admit_one key limit window now buckets =
    let entries = current window now (bucket key buckets) in
    if leb limit (length entries)
    then (denied (retry window now entries), buckets)
    else (admitted, set_bucket key (entries ++ now ∷ []) buckets)

abbrev pub account_key : Text → Text
account_key value = codes "account:" ++ value

-- A call of one of the three methods, at the time that the clock shows.
pub data Request : Type 0 where
  login : ℕ → Text → Text → Request
  refresh_ip refresh_family : ℕ → Text → Request

abbrev pub at_time : Request → ℕ
at_time (login now account ip) = now
at_time (refresh_ip now ip) = now
at_time (refresh_family now family) = now

-- The digest of a scope and a value.
module _ (digest : Text → Text → Text) where
  abbrev pub ip_key : Text → Text → Text
  ip_key scope value = codes "ip:" ++ scope ++ codes ":" ++ digest scope value

  abbrev pub family_key : Text → Text
  family_key value = codes "family:" ++ digest (codes "family") value

  -- The three methods on the buckets.
  unfoldable pub admit_open : Request → Buckets → RollingWindowDecision × Buckets
  admit_open (login now account ip) buckets =
      admit_dual (account_key account) (ip_key (codes "login") ip) 5 20 login_window now buckets
  admit_open (refresh_ip now ip) buckets =
      admit_one (ip_key (codes "refresh") ip) 60 refresh_window now buckets
  admit_open (refresh_family now family) buckets =
      admit_one (family_key family) 10 refresh_window now buckets

  abbrev pub reply :
      Bool → RollingWindowDecision × Buckets → Result Unavailable RollingWindowDecision × Limiter
  reply closed (decision, buckets) = (ok decision, record { buckets = buckets; closed = closed })

  -- `localLimiter`: `ready` throws once the limiter is closed.
  unfoldable pub admit_request :
      Request → Limiter → Result Unavailable RollingWindowDecision × Limiter
  unfolding admit_open
  admit_request request s =
      if s.closed then (throw unavailable, s) else reply s.closed (admit_open request s.buckets)
