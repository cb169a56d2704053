-- ===== src/RateLimit.antt =====
-- core/shared/rolling-window-limiter.ts: the limiter in memory, and the limits that
-- core/tenant/registration-limiter.ts asks it for. A time is a number of milliseconds; the clock is
-- read once by each call, which carries what it read. The Redis client is not modelled.
pub mod Window
pub mod Session
pub mod Buckets
pub mod Reference
pub mod Retry
mod Tests
use cloud_commitment_portfol.Base.{
  ℕ, ◌+◌, ◌-◌, ◌/◌, Bool, true, false, Option, none, some, List, [], ◌∷◌, ◌++◌, length, filter, ltb,
  leb, if◌then◌else◌,
}
use cloud_commitment_portfol.Base.Text.{Text, text_eq}
use cloud_commitment_portfol.Base.Action.{Result, ok, throw}

-- `RollingWindowDecision`; `none` is an absent `retryAfterSeconds`.
pub record RollingWindowDecision : Type 0 where
  pub allowed : Bool
  pub retry_after_seconds : Option ℕ

pub data Unavailable : Type 0 where
  unavailable : Unavailable

-- `Map<string, number[]>`.
abbrev pub Buckets : Type 0
Buckets = Text → Option (List ℕ)

abbrev pub times_or_empty : Option (List ℕ) → List ℕ
times_or_empty none = []
times_or_empty (some times) = times

-- `buckets.get(key) ?? []`.
abbrev pub bucket : Text → Buckets → List ℕ
bucket key buckets = times_or_empty (buckets key)

-- `buckets.set(key, times)`.
unfoldable pub set_bucket : Text → List ℕ → Buckets → Buckets
set_bucket key times buckets k = if text_eq key k then some times else buckets k

abbrev pub no_buckets : Buckets
no_buckets _ = none

-- `value > now - windowMs`, over the integers.
abbrev pub live : ℕ → ℕ → ℕ → Bool
live window now t = ltb now (t + window)

-- The filter that drops what the window has left behind.
unfoldable pub current : ℕ → ℕ → List ℕ → List ℕ
current window now times = filter (live window now) times

abbrev pub max_nat : ℕ → ℕ → ℕ
max_nat a b = if ltb a b then b else a

-- `Math.max(1, Math.ceil((oldest + windowMs - now) / 1000))`.
unfoldable pub retry_seconds : ℕ → ℕ → ℕ → ℕ
retry_seconds window now oldest = max_nat 1 ((oldest + window - now + 999) / 1000)

-- `retryAfterSeconds` of a full bucket; `none` is the `NaN` of an empty one, under a limit of 0.
unfoldable pub retry_after : ℕ → ℕ → List ℕ → Option ℕ
unfolding retry_seconds
retry_after window now [] = none
retry_after window now (oldest ∷ times) = some (retry_seconds window now oldest)

pub record Limiter : Type 0 where
  pub buckets : Buckets
  pub closed : Bool

-- `createLocalRollingWindowLimiter`.
abbrev pub new_limiter : Limiter
new_limiter = record { buckets = no_buckets; closed = false }

abbrev pub put_bucket : Text → List ℕ → Limiter → Limiter
put_bucket key times s = record s { buckets = set_bucket key times s.buckets }

-- What `admit` does with the times that the window still holds.
unfoldable pub admit_current :
    ℕ → Text → ℕ → ℕ → List ℕ → Limiter → Result Unavailable RollingWindowDecision × Limiter
admit_current now key limit window admitted s =
    if leb limit (length admitted)
    then (
      ok record { allowed = false; retry_after_seconds = retry_after window now admitted },
      put_bucket key admitted s,
    )
    else (
      ok record { allowed = true; retry_after_seconds = none },
      put_bucket key (admitted ++ now ∷ []) s,
    )

-- `admit`.
unfoldable pub admit :
    ℕ → Text → ℕ → ℕ → Limiter → Result Unavailable RollingWindowDecision × Limiter
unfolding admit_current
admit now key limit window s =
    if s.closed
    then (throw unavailable, s)
    else admit_current now key limit window (current window now (bucket key s.buckets)) s

-- `close`.
unfoldable pub close_limiter : Limiter → Limiter
close_limiter s = record { buckets = no_buckets; closed = true }

abbrev pub registration_limit : ℕ
registration_limit = 5

abbrev pub registration_window_ms : ℕ
registration_window_ms = 60000

-- `admit` of the registration limiter, whose bucket is a digest of the client's address.
unfoldable pub admit_registration :
    (Text → Text) → ℕ → Text → Limiter → Result Unavailable RollingWindowDecision × Limiter
unfolding admit
admit_registration bucket_digest now client_ip s =
    admit now (bucket_digest client_ip) registration_limit registration_window_ms s
